-- ===== src/Console/Ring.antt =====
-- The ring buffer, seen from the offset that is read next.
use native.Mathlib.Decide.{dec_lt}
use mathlib.Core.Path.{ap₂}
use hello_world_osal.Base.{
  ℕ, zero, suc, ◌+◌, ◌-◌, ◌<◌, ◌≤◌, ◌≡◌, ◌≢◌, refl, sym, ap, ◌∙◌, arith, Option, none, some, [],
  ◌∷◌, Text, ltb, leb, if◌then◌else◌, update, update_ne, update_self, ◌++◌, length,
}
use hello_world_osal.Console.{copy_out}

module _ (size read : ℕ) where
  -- The offset `k` places after the one that is read next.
  abbrev pub place : ℕ → ℕ
  place k = if ltb (read + k) size then read + k else read + k - size

  -- The `n` characters from place `k` on.
  unfoldable pub peek : ℕ → ℕ → (ℕ → ℕ) → Text
  peek zero k buf = []
  peek (suc n) k buf = buf (place k) ∷ peek n (k + 1) buf

  module _ (valid : read < size) where
    place-injective : (j k : ℕ) → j < k → k < size → place j ≢ place k
    place-injective j k low high = λ e. ground arith

    place-next :
        (k : ℕ) → k + 1 < size → (if leb size (place k + 1) then 0 else place k + 1) ≡ place (k + 1)
    place-next k h = ground arith

    place-last : (k : ℕ) → k + 1 ≡ size → (if leb size (place k + 1) then 0 else place k + 1) ≡ read
    place-last k h = ground arith

    place-apart : (k : ℕ) → k + 1 < size → place (k + 1) ≢ read
    place-apart k h = λ e. ground arith

    -- One character with room behind it.
    copy_out-more :
        (c : ℕ) (str : Text) (k : ℕ) (buf : ℕ → ℕ)
        → k + 1 < size
        → copy_out size read (c ∷ str) (place k) buf
          ≡ copy_out size read str (place (k + 1)) (update buf (place k) c)
    unfolding copy_out
    copy_out-more c str k buf h = rw (place-next k h) (ground (arith, place-apart k h))

    -- The character that fills the buffer is one too many.
    copy_out-last :
        (c : ℕ) (str : Text) (k : ℕ) (buf : ℕ → ℕ)
        → k + 1 ≡ size
        → copy_out size read (c ∷ str) (place k) buf ≡ (none, update buf (place k) c)
    unfolding copy_out
    copy_out-last c str k buf h = rw (place-last k h) (ground arith)

    copy_out-[] :
        (k : ℕ) (buf : ℕ → ℕ) → copy_out size read [] (place k) buf ≡ (some (place k), buf)
    unfolding copy_out
    copy_out-[] k buf = refl

    abbrev written : Text → ℕ → (ℕ → ℕ) → ℕ → ℕ
    written str k buf = (copy_out size read str (place k) buf).1

    -- Only places from `k` on are written.
    pub copy_out-before :
        (str : Text) (k j : ℕ) (buf : ℕ → ℕ)
        → k < size
        → j < k
        → written str k buf (place j) ≡ buf (place j)
    unfolding copy_out
    copy_out-before [] k j buf high low = refl
    copy_out-before (c ∷ str) k j buf high low =
        let kept =
          update_ne buf (place k) (place j) c (λ e. place-injective j k low high (sym e)) in
        elim (dec_lt (k + 1) size) [
          | yes more ↦
              ap (λ (r : Option ℕ × (ℕ → ℕ)). r.1 (place j)) (copy_out-more c str k buf more)
              ∙ copy_out-before str (k + 1) j (update buf (place k) c) more (omega arith)
              ∙ kept
          | no last ↦
              ap (λ (r : Option ℕ × (ℕ → ℕ)). r.1 (place j))
                (copy_out-last c str k buf (omega arith))
              ∙ kept
        ]

    -- A string that is written stands at the places from `k` on, and the next offset follows it.
    pub copy_out-some :
        (str : Text) (k offset : ℕ) (buf : ℕ → ℕ)
        → k < size
        → (copy_out size read str (place k) buf).0 ≡ some offset
        → (k + length str < size)
          × (offset ≡ place (k + length str))
          × (peek (length str) k (written str k buf) ≡ str)
    unfolding copy_out peek
    copy_out-some [] k offset buf h e = ground arith
    copy_out-some (c ∷ str) k offset buf h e = elim (dec_lt (k + 1) size) [
      | yes more ↦
          let buf' = update buf (place k) c in
          let step = copy_out-more c str k buf more in
          let (room, follows, stands) =
            copy_out-some str (k + 1) offset buf' more
              (sym (ap (λ (r : Option ℕ × (ℕ → ℕ)). r.0) step) ∙ e) in
          let first =
            copy_out-before str (k + 1) k buf' more (omega arith) ∙ update_self buf (place k) c in
          let same = ap (λ (r : Option ℕ × (ℕ → ℕ)). peek (suc (length str)) k r.1) step in
          (
            omega arith,
            follows ∙ ap place (omega arith),
            same ∙ ap₂ (λ (x : ℕ) (xs : Text). x ∷ xs) first stands,
          )
      | no last ↦
          let step = copy_out-last c str k buf (omega arith) in
          absurd (ground (arith, sym (ap (λ (r : Option ℕ × (ℕ → ℕ)). r.0) step) ∙ e))
    ]

    -- A string that does not fit has more characters than there are free places.
    pub copy_out-none :
        (str : Text) (k : ℕ) (buf : ℕ → ℕ)
        → k < size
        → (copy_out size read str (place k) buf).0 ≡ none
        → size ≤ k + length str
    unfolding copy_out
    copy_out-none [] k buf h e = cc
    copy_out-none (c ∷ str) k buf h e = elim (dec_lt (k + 1) size) [
      | yes more ↦
          let step = copy_out-more c str k buf more in
          let rest =
            copy_out-none str (k + 1) (update buf (place k) c) more
              (sym (ap (λ (r : Option ℕ × (ℕ → ℕ)). r.0) step) ∙ e) in
          omega arith
      | no last ↦ omega arith
    ]

    -- The characters at places before `k` only depend on those places.
    pub peek-before :
        (n k j : ℕ) (str : Text) (buf : ℕ → ℕ)
        → k < size
        → j + n ≤ k
        → peek n j (written str k buf) ≡ peek n j buf
    unfolding peek
    peek-before zero k j str buf high low = refl
    peek-before (suc n) k j str buf high low =
        ap₂ (λ (x : ℕ) (xs : Text). x ∷ xs) (copy_out-before str k j buf high (omega arith))
          (peek-before n k (j + 1) str buf high (omega arith))

  pub peek-++ : (m n k : ℕ) (buf : ℕ → ℕ) → peek (m + n) k buf ≡ peek m k buf ++ peek n (k + m) buf
  unfolding peek
  peek-++ zero n k buf =
      let count : 0 + n ≡ n = omega arith in
      let at : k ≡ k + 0 = omega arith in ap (λ a. peek a k buf) count ∙ ap (λ j. peek n j buf) at
  peek-++ (suc m) n k buf =
      let count : suc m + n ≡ suc (m + n) = omega arith in
      let at : k + 1 + m ≡ k + suc m = omega arith in
      ap (λ a. peek a k buf) count
      ∙ ap (λ (xs : Text). buf (place k) ∷ xs)
          (peek-++ m n (k + 1) buf ∙ ap (λ j. peek m (k + 1) buf ++ peek n j buf) at)
