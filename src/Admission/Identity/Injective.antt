-- ===== src/Admission/Identity/Injective.antt =====
-- Different identities have different bytes to hash: the lengths in front leave no ambiguity.
use text.Mathlib.TextEquality.{Char-path}
use mathlib.Core.Path.{ap₂}
use mathlib.Core.List.{append_assoc}
use peoplebot_releases.Base.{
  ℕ, ◌*◌, ◌≤◌, ◌<◌, String, ◌≡◌, refl, sym, ◌∙◌, List, [], ◌∷◌, ◌++◌, arith, length, length-append,
  codes,
}
use peoplebot_releases.Base.Result.{ok}
use peoplebot_releases.Admission.{require_identity}
use peoplebot_releases.Admission.Identity.{
  Bytes, utf8_code, utf8, four_bytes, framed, frames, resource_input,
}

codes-injective : (s t : String) → codes s ≡ codes t → s ≡ t
codes-injective String.[] String.[] h = refl
codes-injective String.[] (String.◌∷◌ d t) h = cc
codes-injective (String.◌∷◌ c s) String.[] h = cc
codes-injective (String.◌∷◌ c s) (String.◌∷◌ d t) h =
    ground (arith, Char-path c d, codes-injective s t)

utf8_code-injective :
    (c d : ℕ) (xs ys : Bytes) → utf8_code c ++ xs ≡ utf8_code d ++ ys → (c ≡ d) × (xs ≡ ys)
unfolding utf8_code
utf8_code-injective c d xs ys h = ground (arith, h)

utf8_code-ne-nil : (c : ℕ) (xs : Bytes) → utf8_code c ++ xs ≡ [] → ⊥
unfolding utf8_code
utf8_code-ne-nil c xs h = ground (arith, h)

pub utf8-injective : (cs ds : List ℕ) → utf8 cs ≡ utf8 ds → cs ≡ ds
unfolding utf8
utf8-injective [] [] h = refl
utf8-injective [] (d ∷ ds) h = absurd (utf8_code-ne-nil d (utf8 ds) (cc))
utf8-injective (c ∷ cs) [] h = absurd (utf8_code-ne-nil c (utf8 cs) h)
utf8-injective (c ∷ cs) (d ∷ ds) h =
    ground (arith, utf8_code-injective c d (utf8 cs) (utf8 ds) h, utf8-injective cs ds)

length-utf8_code : (c : ℕ) → length (utf8_code c) ≤ 4
unfolding utf8_code
length-utf8_code c = ground arith

length-utf8 : (cs : List ℕ) → length (utf8 cs) ≤ 4 * length cs
unfolding utf8
length-utf8 [] = omega arith
length-utf8 (c ∷ cs) =
    omega (arith, length-utf8 cs, length-utf8_code c, length-append (utf8_code c) (utf8 cs))

four_bytes-injective :
    (m n : ℕ) (xs ys : Bytes)
    → m < 4294967296
    → n < 4294967296
    → four_bytes m ++ xs ≡ four_bytes n ++ ys
    → (m ≡ n) × (xs ≡ ys)
unfolding four_bytes
four_bytes-injective m n xs ys hm hn h = ground (arith, h)

append-injective :
    (a b xs ys : Bytes) → length a ≡ length b → a ++ xs ≡ b ++ ys → (a ≡ b) × (xs ≡ ys)
append-injective [] [] xs ys e h = (refl, h)
append-injective [] (y ∷ b) xs ys e h = absurd (omega arith)
append-injective (x ∷ a) [] xs ys e h = absurd (omega arith)
append-injective (x ∷ a) (y ∷ b) xs ys e h = ground (arith, append-injective a b xs ys)

framed-injective :
    (a b xs ys : Bytes)
    → length a < 4294967296
    → length b < 4294967296
    → framed a ++ xs ≡ framed b ++ ys
    → (a ≡ b) × (xs ≡ ys)
unfolding framed
framed-injective a b xs ys ha hb h =
    let (n, rest) = four_bytes-injective (length a) (length b) (a ++ xs) (b ++ ys) ha hb (
      sym (append_assoc (four_bytes (length a)) a xs)
      ∙ h
      ∙ append_assoc (four_bytes (length b)) b ys) in
    append-injective a b xs ys n rest

-- Every text of the list has fewer than 2 ^ 32 bytes.
abbrev pub AreShort : List String → Type 0
AreShort [] = Unit
AreShort (s ∷ ss) = (length (utf8 (codes s)) < 4294967296) × AreShort ss

pub frames-injective :
    (ss ts : List String)
    → length ss ≡ length ts
    → AreShort ss
    → AreShort ts
    → frames ss ≡ frames ts
    → ss ≡ ts
unfolding frames
frames-injective [] [] e hs ht h = refl
frames-injective [] (t ∷ ts) e hs ht h = absurd (omega arith)
frames-injective (s ∷ ss) [] e hs ht h = absurd (omega arith)
frames-injective (s ∷ ss) (t ∷ ts) e hs ht h =
    let (same, rest) =
      framed-injective (utf8 (codes s)) (utf8 (codes t)) (frames ss) (frames ts) hs.0 ht.0 h in
    ap₂ (λ a b. a ∷ b) (codes-injective s t (utf8-injective (codes s) (codes t) same))
      (frames-injective ss ts (omega arith) hs.1 ht.1 rest)

-- An identity that `_require_identity` accepts has at most 256 characters, so it is short.
accepted-short :
    (s l : String) → require_identity s l ≡ ok tt → length (utf8 (codes s)) < 4294967296
unfolding require_identity
accepted-short s l h =
    let bound : length (codes s) ≤ 256 = ground (arith, h) in omega (arith, length-utf8 (codes s))

pub prefix_cancel : (d xs ys : Bytes) → d ++ xs ≡ d ++ ys → xs ≡ ys
prefix_cancel d xs ys h = (append-injective d d xs ys refl h).1

-- Accepted environments and Instances that differ are hashed as different bytes.
pub resource_input-injective :
    (domain e i e' i' : String)
    → require_identity e "environment_id" ≡ ok tt
    → require_identity i "instance_id" ≡ ok tt
    → require_identity e' "environment_id" ≡ ok tt
    → require_identity i' "instance_id" ≡ ok tt
    → resource_input domain (e ∷ i ∷ []) ≡ resource_input domain (e' ∷ i' ∷ [])
    → (e ≡ e') × (i ≡ i')
unfolding resource_input
resource_input-injective domain e i e' i' he hi he' hi' h =
    let prefix : Bytes = utf8 (codes "peoplebot.instance-admission.v0\0") in
    let rest : Bytes = 0 ∷ frames (e ∷ i ∷ []) in
    let rest' : Bytes = 0 ∷ frames (e' ∷ i' ∷ []) in
    let behind : rest ≡ rest' =
      prefix_cancel (utf8 (codes domain)) rest rest'
        (prefix_cancel prefix (utf8 (codes domain) ++ rest) (utf8 (codes domain) ++ rest') h) in
    ground (
      arith,
      frames-injective (e ∷ i ∷ []) (e' ∷ i' ∷ []) refl
          (accepted-short e _ he, (accepted-short i _ hi, tt))
          (accepted-short e' _ he', (accepted-short i' _ hi', tt)) (cc behind),
    )
