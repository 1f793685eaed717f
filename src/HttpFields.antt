-- ===== src/HttpFields.antt =====
-- solvetls/http_fields.py: response framing and comma-separated lists. Octets and the Latin-1
-- characters that `as_text` makes of them are the same numbers.

pub mod Lists
pub mod Response
