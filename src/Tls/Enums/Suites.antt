-- ===== src/Tls/Enums/Suites.antt =====
-- solvetls/tls/enums.py: cipher suites and signature schemes, in the order of the source.
use solvetls.Base.{[], ◌∷◌}
use solvetls.Wire.Naming.{EnumType}

abbrev pub cipher_suite : EnumType
cipher_suite =
    (0x1301, "TLS_AES_128_GCM_SHA256")
    ∷ (0x1302, "TLS_AES_256_GCM_SHA384")
    ∷ (0x1303, "TLS_CHACHA20_POLY1305_SHA256")
    ∷ (0x1304, "TLS_AES_128_CCM_SHA256")
    ∷ (0x1305, "TLS_AES_128_CCM_8_SHA256")
    ∷ (0x0001, "TLS_RSA_WITH_NULL_MD5")
    ∷ (0x0002, "TLS_RSA_WITH_NULL_SHA")
    ∷ (0x0004, "TLS_RSA_WITH_RC4_128_MD5")
    ∷ (0x0005, "TLS_RSA_WITH_RC4_128_SHA")
    ∷ (0x000a, "TLS_RSA_WITH_3DES_EDE_CBC_SHA")
    ∷ (0x002f, "TLS_RSA_WITH_AES_128_CBC_SHA")
    ∷ (0x0035, "TLS_RSA_WITH_AES_256_CBC_SHA")
    ∷ (0x003b, "TLS_RSA_WITH_NULL_SHA256")
    ∷ (0x003c, "TLS_RSA_WITH_AES_128_CBC_SHA256")
    ∷ (0x003d, "TLS_RSA_WITH_AES_256_CBC_SHA256")
    ∷ (0x009c, "TLS_RSA_WITH_AES_128_GCM_SHA256")
    ∷ (0x009d, "TLS_RSA_WITH_AES_256_GCM_SHA384")
    ∷ (0x0016, "TLS_DHE_RSA_WITH_3DES_EDE_CBC_SHA")
    ∷ (0x0033, "TLS_DHE_RSA_WITH_AES_128_CBC_SHA")
    ∷ (0x0039, "TLS_DHE_RSA_WITH_AES_256_CBC_SHA")
    ∷ (0x0067, "TLS_DHE_RSA_WITH_AES_128_CBC_SHA256")
    ∷ (0x006b, "TLS_DHE_RSA_WITH_AES_256_CBC_SHA256")
    ∷ (0x009e, "TLS_DHE_RSA_WITH_AES_128_GCM_SHA256")
    ∷ (0x009f, "TLS_DHE_RSA_WITH_AES_256_GCM_SHA384")
    ∷ (0xccaa, "TLS_DHE_RSA_WITH_CHACHA20_POLY1305_SHA256")
    ∷ (0xc010, "TLS_ECDHE_RSA_WITH_NULL_SHA")
    ∷ (0xc011, "TLS_ECDHE_RSA_WITH_RC4_128_SHA")
    ∷ (0xc012, "TLS_ECDHE_RSA_WITH_3DES_EDE_CBC_SHA")
    ∷ (0xc013, "TLS_ECDHE_RSA_WITH_AES_128_CBC_SHA")
    ∷ (0xc014, "TLS_ECDHE_RSA_WITH_AES_256_CBC_SHA")
    ∷ (0xc027, "TLS_ECDHE_RSA_WITH_AES_128_CBC_SHA256")
    ∷ (0xc028, "TLS_ECDHE_RSA_WITH_AES_256_CBC_SHA384")
    ∷ (0xc02f, "TLS_ECDHE_RSA_WITH_AES_128_GCM_SHA256")
    ∷ (0xc030, "TLS_ECDHE_RSA_WITH_AES_256_GCM_SHA384")
    ∷ (0xcca8, "TLS_ECDHE_RSA_WITH_CHACHA20_POLY1305_SHA256")
    ∷ (0xc006, "TLS_ECDHE_ECDSA_WITH_NULL_SHA")
    ∷ (0xc007, "TLS_ECDHE_ECDSA_WITH_RC4_128_SHA")
    ∷ (0xc008, "TLS_ECDHE_ECDSA_WITH_3DES_EDE_CBC_SHA")
    ∷ (0xc009, "TLS_ECDHE_ECDSA_WITH_AES_128_CBC_SHA")
    ∷ (0xc00a, "TLS_ECDHE_ECDSA_WITH_AES_256_CBC_SHA")
    ∷ (0xc023, "TLS_ECDHE_ECDSA_WITH_AES_128_CBC_SHA256")
    ∷ (0xc024, "TLS_ECDHE_ECDSA_WITH_AES_256_CBC_SHA384")
    ∷ (0xc02b, "TLS_ECDHE_ECDSA_WITH_AES_128_GCM_SHA256")
    ∷ (0xc02c, "TLS_ECDHE_ECDSA_WITH_AES_256_GCM_SHA384")
    ∷ (0xcca9, "TLS_ECDHE_ECDSA_WITH_CHACHA20_POLY1305_SHA256")
    ∷ (0x008c, "TLS_PSK_WITH_AES_128_CBC_SHA")
    ∷ (0x008d, "TLS_PSK_WITH_AES_256_CBC_SHA")
    ∷ (0x00a8, "TLS_PSK_WITH_AES_128_GCM_SHA256")
    ∷ (0x00a9, "TLS_PSK_WITH_AES_256_GCM_SHA384")
    ∷ (0xccab, "TLS_PSK_WITH_CHACHA20_POLY1305_SHA256")
    ∷ (0xc035, "TLS_ECDHE_PSK_WITH_AES_128_CBC_SHA")
    ∷ (0xc036, "TLS_ECDHE_PSK_WITH_AES_256_CBC_SHA")
    ∷ (0xc037, "TLS_ECDHE_PSK_WITH_AES_128_CBC_SHA256")
    ∷ (0xc038, "TLS_ECDHE_PSK_WITH_AES_256_CBC_SHA384")
    ∷ (0xccac, "TLS_ECDHE_PSK_WITH_CHACHA20_POLY1305_SHA256")
    ∷ (0xd001, "TLS_ECDHE_PSK_WITH_AES_128_GCM_SHA256")
    ∷ (0xd002, "TLS_ECDHE_PSK_WITH_AES_256_GCM_SHA384")
    ∷ (0x0018, "TLS_DH_anon_WITH_RC4_128_MD5")
    ∷ (0x001b, "TLS_DH_anon_WITH_3DES_EDE_CBC_SHA")
    ∷ (0x0034, "TLS_DH_anon_WITH_AES_128_CBC_SHA")
    ∷ (0x003a, "TLS_DH_anon_WITH_AES_256_CBC_SHA")
    ∷ (0x0041, "TLS_RSA_WITH_CAMELLIA_128_CBC_SHA")
    ∷ (0x0084, "TLS_RSA_WITH_CAMELLIA_256_CBC_SHA")
    ∷ (0xc08a, "TLS_ECDHE_RSA_WITH_CAMELLIA_128_GCM_SHA256")
    ∷ (0xc08b, "TLS_ECDHE_RSA_WITH_CAMELLIA_256_GCM_SHA384")
    ∷ (0xc03c, "TLS_RSA_WITH_ARIA_128_CBC_SHA256")
    ∷ (0xc03d, "TLS_RSA_WITH_ARIA_256_CBC_SHA384")
    ∷ (0xc060, "TLS_ECDHE_RSA_WITH_ARIA_128_GCM_SHA256")
    ∷ (0xc061, "TLS_ECDHE_RSA_WITH_ARIA_256_GCM_SHA384")
    ∷ (0x00ff, "TLS_EMPTY_RENEGOTIATION_INFO_SCSV")
    ∷ (0x5600, "TLS_FALLBACK_SCSV")
    ∷ []

abbrev pub signature_scheme : EnumType
signature_scheme =
    (0x0101, "RSA_PKCS1_MD5")
    ∷ (0x0102, "DSA_MD5")
    ∷ (0x0103, "ECDSA_MD5")
    ∷ (0x0201, "RSA_PKCS1_SHA1")
    ∷ (0x0202, "DSA_SHA1")
    ∷ (0x0203, "ECDSA_SHA1")
    ∷ (0x0301, "RSA_PKCS1_SHA224")
    ∷ (0x0302, "DSA_SHA224")
    ∷ (0x0303, "ECDSA_SHA224")
    ∷ (0x0402, "DSA_SHA256")
    ∷ (0x0502, "DSA_SHA384")
    ∷ (0x0602, "DSA_SHA512")
    ∷ (0x0401, "RSA_PKCS1_SHA256")
    ∷ (0x0403, "ECDSA_SECP256R1_SHA256")
    ∷ (0x0501, "RSA_PKCS1_SHA384")
    ∷ (0x0503, "ECDSA_SECP384R1_SHA384")
    ∷ (0x0601, "RSA_PKCS1_SHA512")
    ∷ (0x0603, "ECDSA_SECP521R1_SHA512")
    ∷ (0x0804, "RSA_PSS_RSAE_SHA256")
    ∷ (0x0805, "RSA_PSS_RSAE_SHA384")
    ∷ (0x0806, "RSA_PSS_RSAE_SHA512")
    ∷ (0x0807, "ED25519")
    ∷ (0x0808, "ED448")
    ∷ (0x0809, "RSA_PSS_PSS_SHA256")
    ∷ (0x080a, "RSA_PSS_PSS_SHA384")
    ∷ (0x080b, "RSA_PSS_PSS_SHA512")
    ∷ (0x081a, "ECDSA_BRAINPOOLP256R1TLS13_SHA256")
    ∷ (0x081b, "ECDSA_BRAINPOOLP384R1TLS13_SHA384")
    ∷ (0x081c, "ECDSA_BRAINPOOLP512R1TLS13_SHA512")
    ∷ (0x0708, "SM2SIG_SM3")
    ∷ (0x0709, "GOSTR34102012_256A")
    ∷ (0x070a, "GOSTR34102012_256B")
    ∷ (0x070b, "GOSTR34102012_256C")
    ∷ (0x070c, "GOSTR34102012_256D")
    ∷ (0x070d, "GOSTR34102012_512A")
    ∷ (0x070e, "GOSTR34102012_512B")
    ∷ (0x070f, "GOSTR34102012_512C")
    ∷ (0x0420, "RSA_PKCS1_SHA256_LEGACY")
    ∷ (0x0520, "RSA_PKCS1_SHA384_LEGACY")
    ∷ (0x0620, "RSA_PKCS1_SHA512_LEGACY")
    ∷ []
