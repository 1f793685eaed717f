-- ===== src/Fingerprints.antt =====
-- solvetls/fingerprints.py: JA3, JA4 and the Akamai fingerprint, from what was captured. The digests
-- of `hashlib` are parameters: functions from a text to a hexadecimal text.
pub mod Hello
pub mod Ja3
pub mod Ja4
pub mod Grease
pub mod Akamai
