-- ===== src/Tls/Enums.antt =====
-- solvetls/tls/enums.py: the identifiers that the TLS registries name, as tables of values and names
-- in the order of the source. Each table is a class of the source.
pub mod Suites
use solvetls.Base.{[], ◌∷◌}
use solvetls.Wire.Naming.{EnumType}

abbrev pub tls_version : EnumType
tls_version =
    (0x0300, "SSL_3_0")
    ∷ (0x0301, "TLS_1_0")
    ∷ (0x0302, "TLS_1_1")
    ∷ (0x0303, "TLS_1_2")
    ∷ (0x0304, "TLS_1_3")
    ∷ []

abbrev pub extension_type : EnumType
extension_type =
    (0, "SERVER_NAME")
    ∷ (1, "MAX_FRAGMENT_LENGTH")
    ∷ (2, "CLIENT_CERTIFICATE_URL")
    ∷ (3, "TRUSTED_CA_KEYS")
    ∷ (4, "TRUNCATED_HMAC")
    ∷ (5, "STATUS_REQUEST")
    ∷ (6, "USER_MAPPING")
    ∷ (7, "CLIENT_AUTHZ")
    ∷ (8, "SERVER_AUTHZ")
    ∷ (9, "CERT_TYPE")
    ∷ (10, "SUPPORTED_GROUPS")
    ∷ (11, "EC_POINT_FORMATS")
    ∷ (12, "SRP")
    ∷ (13, "SIGNATURE_ALGORITHMS")
    ∷ (14, "USE_SRTP")
    ∷ (15, "HEARTBEAT")
    ∷ (16, "APPLICATION_LAYER_PROTOCOL_NEGOTIATION")
    ∷ (17, "STATUS_REQUEST_V2")
    ∷ (18, "SIGNED_CERTIFICATE_TIMESTAMP")
    ∷ (19, "CLIENT_CERTIFICATE_TYPE")
    ∷ (20, "SERVER_CERTIFICATE_TYPE")
    ∷ (21, "PADDING")
    ∷ (22, "ENCRYPT_THEN_MAC")
    ∷ (23, "EXTENDED_MASTER_SECRET")
    ∷ (24, "TOKEN_BINDING")
    ∷ (25, "CACHED_INFO")
    ∷ (26, "TLS_LTS")
    ∷ (27, "COMPRESS_CERTIFICATE")
    ∷ (28, "RECORD_SIZE_LIMIT")
    ∷ (29, "PWD_PROTECT")
    ∷ (30, "PWD_CLEAR")
    ∷ (31, "PASSWORD_SALT")
    ∷ (32, "TICKET_PINNING")
    ∷ (33, "TLS_CERT_WITH_EXTERN_PSK")
    ∷ (34, "DELEGATED_CREDENTIAL")
    ∷ (35, "SESSION_TICKET_TLS")
    ∷ (36, "TLMSP")
    ∷ (37, "TLMSP_PROXYING")
    ∷ (38, "TLMSP_DELEGATE")
    ∷ (39, "SUPPORTED_EKT_CIPHERS")
    ∷ (40, "RESERVED_40")
    ∷ (41, "PRE_SHARED_KEY")
    ∷ (42, "EARLY_DATA")
    ∷ (43, "SUPPORTED_VERSIONS")
    ∷ (44, "COOKIE")
    ∷ (45, "PSK_KEY_EXCHANGE_MODES")
    ∷ (46, "RESERVED_46")
    ∷ (47, "CERTIFICATE_AUTHORITIES")
    ∷ (48, "OID_FILTERS")
    ∷ (49, "POST_HANDSHAKE_AUTH")
    ∷ (50, "SIGNATURE_ALGORITHMS_CERT")
    ∷ (51, "KEY_SHARE")
    ∷ (52, "TRANSPARENCY_INFO")
    ∷ (53, "CONNECTION_ID_DEPRECATED")
    ∷ (54, "CONNECTION_ID")
    ∷ (55, "EXTERNAL_ID_HASH")
    ∷ (56, "EXTERNAL_SESSION_ID")
    ∷ (57, "QUIC_TRANSPORT_PARAMETERS")
    ∷ (58, "TICKET_REQUEST")
    ∷ (59, "DNSSEC_CHAIN")
    ∷ (60, "SEQUENCE_NUMBER_ENCRYPTION_ALGORITHMS")
    ∷ (61, "RRC")
    ∷ (62, "TLS_FLAGS")
    ∷ (2570, "GREASE_0A")
    ∷ (6682, "GREASE_1A")
    ∷ (10794, "GREASE_2A")
    ∷ (14906, "GREASE_3A")
    ∷ (19018, "GREASE_4A")
    ∷ (23130, "GREASE_5A")
    ∷ (27242, "GREASE_6A")
    ∷ (31354, "GREASE_7A")
    ∷ (35466, "GREASE_8A")
    ∷ (39578, "GREASE_9A")
    ∷ (43690, "GREASE_AA")
    ∷ (47802, "GREASE_BA")
    ∷ (51914, "GREASE_CA")
    ∷ (56026, "GREASE_DA")
    ∷ (60138, "GREASE_EA")
    ∷ (64250, "GREASE_FA")
    ∷ (65281, "RENEGOTIATION_INFO")
    ∷ (65037, "ENCRYPTED_CLIENT_HELLO")
    ∷ (30031, "CHANNEL_ID_OLD")
    ∷ (30032, "CHANNEL_ID_NEW")
    ∷ (13175, "ORIGIN_BOUND_CERTS")
    ∷ []

abbrev pub named_group : EnumType
named_group =
    (0x0001, "SECT163K1")
    ∷ (0x0002, "SECT163R1")
    ∷ (0x0003, "SECT163R2")
    ∷ (0x0004, "SECT193R1")
    ∷ (0x0005, "SECT193R2")
    ∷ (0x0006, "SECT233K1")
    ∷ (0x0007, "SECT233R1")
    ∷ (0x0008, "SECT239K1")
    ∷ (0x0009, "SECT283K1")
    ∷ (0x000a, "SECT283R1")
    ∷ (0x000b, "SECT409K1")
    ∷ (0x000c, "SECT409R1")
    ∷ (0x000d, "SECT571K1")
    ∷ (0x000e, "SECT571R1")
    ∷ (0x000f, "SECP160K1")
    ∷ (0x0010, "SECP160R1")
    ∷ (0x0011, "SECP160R2")
    ∷ (0x0012, "SECP192K1")
    ∷ (0x0013, "SECP192R1")
    ∷ (0x0014, "SECP224K1")
    ∷ (0x0015, "SECP224R1")
    ∷ (0x0016, "SECP256K1")
    ∷ (0x0017, "SECP256R1")
    ∷ (0x0018, "SECP384R1")
    ∷ (0x0019, "SECP521R1")
    ∷ (0x001a, "BRAINPOOLP256R1")
    ∷ (0x001b, "BRAINPOOLP384R1")
    ∷ (0x001c, "BRAINPOOLP512R1")
    ∷ (0x001d, "X25519")
    ∷ (0x001e, "X448")
    ∷ (0x001f, "BRAINPOOLP256R1TLS13")
    ∷ (0x0020, "BRAINPOOLP384R1TLS13")
    ∷ (0x0021, "BRAINPOOLP512R1TLS13")
    ∷ (0x0022, "GC256A")
    ∷ (0x0023, "GC256B")
    ∷ (0x0024, "GC256C")
    ∷ (0x0025, "GC256D")
    ∷ (0x0026, "GC512A")
    ∷ (0x0027, "GC512B")
    ∷ (0x0028, "GC512C")
    ∷ (0x0029, "CURVESM2")
    ∷ (0x0100, "FFDHE2048")
    ∷ (0x0101, "FFDHE3072")
    ∷ (0x0102, "FFDHE4096")
    ∷ (0x0103, "FFDHE6144")
    ∷ (0x0104, "FFDHE8192")
    ∷ (0x0200, "MLKEM512")
    ∷ (0x0201, "MLKEM768")
    ∷ (0x0202, "MLKEM1024")
    ∷ (0x11eb, "SECP256R1MLKEM768")
    ∷ (0x11ec, "X25519MLKEM768")
    ∷ (0x11ed, "SECP384R1MLKEM1024")
    ∷ (0x6399, "X25519KYBER768DRAFT00")
    ∷ (0xff01, "ARBITRARY_EXPLICIT_PRIME_CURVES")
    ∷ (0xff02, "ARBITRARY_EXPLICIT_CHAR2_CURVES")
    ∷ []

abbrev pub ec_point_format : EnumType
ec_point_format =
    (0, "UNCOMPRESSED") ∷ (1, "ANSIX962_COMPRESSED_PRIME") ∷ (2, "ANSIX962_COMPRESSED_CHAR2") ∷ []

abbrev pub psk_key_exchange_mode : EnumType
psk_key_exchange_mode = (0, "PSK_KE") ∷ (1, "PSK_DHE_KE") ∷ []

abbrev pub certificate_compression_algorithm : EnumType
certificate_compression_algorithm = (1, "ZLIB") ∷ (2, "BROTLI") ∷ (3, "ZSTD") ∷ []

abbrev pub server_name_type : EnumType
server_name_type = (0, "HOST_NAME") ∷ []
