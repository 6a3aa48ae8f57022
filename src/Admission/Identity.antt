-- ===== src/Admission/Identity.antt =====
-- `_resource_digest` of peoplebot/admission.py: the bytes that name the lock of an identity, each
-- text behind its length in four bytes.
pub mod Injective
use peoplebot_releases.Base.{
  ℕ, ◌+◌, ◌*◌, ◌/◌, ◌%◌, ◌^◌, String, List, [], ◌∷◌, ◌++◌, ltb, length, codes, if◌then◌else◌,
}

abbrev pub Bytes : Type 0
Bytes = List ℕ

-- The UTF-8 bytes of a code point.
unfoldable pub utf8_code : ℕ → Bytes
utf8_code c =
    if ltb c 0x80
    then c ∷ []
    else if ltb c 0x800
    then (0xc0 + c / 64) ∷ (0x80 + c % 64) ∷ []
    else if ltb c 0x10000
    then (0xe0 + c / 4096) ∷ (0x80 + c / 64 % 64) ∷ (0x80 + c % 64) ∷ []
    else (0xf0 + c / 262144) ∷ (0x80 + c / 4096 % 64) ∷ (0x80 + c / 64 % 64) ∷ (0x80 + c % 64) ∷ []

-- str.encode("utf-8")
unfoldable pub utf8 : List ℕ → Bytes
unfolding utf8_code
utf8 [] = []
utf8 (c ∷ cs) = utf8_code c ++ utf8 cs

-- n.to_bytes(4, "big")
unfoldable pub four_bytes : ℕ → Bytes
four_bytes n = (n / 16777216) ∷ (n / 65536 % 256) ∷ (n / 256 % 256) ∷ (n % 256) ∷ []

-- A byte string behind its length.
unfoldable pub framed : Bytes → Bytes
unfolding four_bytes
framed b = four_bytes (length b) ++ b

unfoldable pub frames : List String → Bytes
unfolding framed utf8
frames [] = []
frames (s ∷ ss) = framed (utf8 (codes s)) ++ frames ss

-- What `_resource_digest` hashes.
unfoldable pub resource_input : String → List String → Bytes
unfolding frames utf8
resource_input domain identities =
    utf8 (codes "peoplebot.instance-admission.v0\0") ++ utf8 (codes domain) ++ 0 ∷ frames identities
