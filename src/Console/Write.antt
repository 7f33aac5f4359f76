-- ===== src/Console/Write.antt =====
-- Writing a message to the console.
use mathlib.Core.Path.{ap₂}
use hello_world_osal.Base.{
  ℕ, ◌+◌, ◌-◌, ◌%◌, ◌^◌, ◌<◌, ◌≤◌, ◌≡◌, ◌⊎◌, inl, inr, refl, sym, ap, ◌∙◌, subst, arith, ℤ, Bool,
  true, false, Option, none, some, [], ◌∷◌, ◌++◌, Text, leb, ◌==◌, if◌then◌else◌, update, length,
  os_success, os_queue_full, Option-cases,
}
use hello_world_osal.Console.{Console, copy_out, copy_message, put_message}
use hello_world_osal.Console.Ring.{place, peek, copy_out-some, copy_out-none, peek-before, peek-++}

pub record IsValid (c : Console) : Type 0 where
  pub reads : c.read_pos < c.buf_size
  pub writes : c.write_pos < c.buf_size

-- How many characters wait to be read.
abbrev pub used : Console → ℕ
used c =
    if leb c.read_pos c.write_pos
    then c.write_pos - c.read_pos
    else c.write_pos + c.buf_size - c.read_pos

-- The characters that wait to be read, in their order.
abbrev pub unread : Console → Text
unread c = peek c.buf_size c.read_pos (used c) 0 c.buf_base

-- The second string after the first, if that was written.
abbrev follow : ℕ → ℕ → Text → Option ℕ × (ℕ → ℕ) → Option ℕ × (ℕ → ℕ)
follow size read t r = elim r.0 [ some o ↦ copy_out size read t o r.1 | none ↦ (none, r.1) ]

follow-if :
    (size read : ℕ) (t : Text) (b : Bool) (x x' y y' : Option ℕ × (ℕ → ℕ))
    → x ≡ follow size read t x'
    → y ≡ follow size read t y'
    → (if b then x else y) ≡ follow size read t (if b then x' else y')
follow-if size read t true x x' y y' p q = p
follow-if size read t false x x' y y' p q = q

copy_out-++ :
    (size read : ℕ) (s t : Text) (offset : ℕ) (buf : ℕ → ℕ)
    → copy_out size read (s ++ t) offset buf ≡ follow size read t (copy_out size read s offset buf)
unfolding copy_out
copy_out-++ size read [] t offset buf = refl
copy_out-++ size read (c ∷ s) t offset buf =
    let next = if leb size (offset + 1) then 0 else offset + 1 in
    let buf' = update buf offset c in
    follow-if size read t (next == read) (none, buf') (none, buf')
      (copy_out size read (s ++ t) next buf') (copy_out size read s next buf') refl
      (copy_out-++ size read s t next buf')

length-++ : (s t : Text) → length (s ++ t) ≡ length s + length t
length-++ [] t = omega arith
length-++ (c ∷ s) t = omega (arith, length-++ s t)

module _ (c : Console) (valid : IsValid c) where
  used-lt : used c < c.buf_size
  used-lt = ground (arith, valid.reads, valid.writes)

  place-used : place c.buf_size c.read_pos (used c) ≡ c.write_pos
  place-used = ground (arith, valid.reads, valid.writes)

  used-place :
      (k : ℕ) (buf : ℕ → ℕ) (n : ℕ)
      → k < c.buf_size
      → used (record c {
        write_pos = place c.buf_size c.read_pos k;
        buf_base = buf;
        overflow_events = n;
      })
        ≡ k
  used-place k buf n h = ground (arith, valid.reads)

  -- Both strings are written one behind the other.
  copy_message-eq :
      (str : Text)
      → copy_message c str
        ≡ copy_out c.buf_size c.read_pos
            (c.device_name ++ str)
            (place c.buf_size c.read_pos (used c))
            c.buf_base
  unfolding copy_message
  copy_message-eq str =
      sym (copy_out-++ c.buf_size c.read_pos c.device_name str c.write_pos c.buf_base)
      ∙ ap (λ o. copy_out c.buf_size c.read_pos (c.device_name ++ str) o c.buf_base)
          (sym place-used)

  abbrev put : Option ℕ × (ℕ → ℕ) → ℤ × Console
  put r = elim r.0 [
    | some offset ↦ (os_success, record c { buf_base = r.1; write_pos = offset })
    | none ↦ (
      os_queue_full,
      record c { buf_base = r.1; overflow_events = (c.overflow_events + 1) % 2 ^ 32 },
    )
  ]

  -- What a write of `text` achieves.
  abbrev Outcome : Text → ℤ × Console → Type 0
  Outcome text (code, c') =
      IsValid c'
      × (((code ≡ os_success) × (unread c' ≡ unread c ++ text))
          ⊎ ((code ≡ os_queue_full)
              × (unread c' ≡ unread c)
              × (c'.overflow_events ≡ (c.overflow_events + 1) % 2 ^ 32)
              × (c.buf_size ≤ used c + length text)))

  module _ (text : Text) where
    abbrev attempt : Option ℕ × (ℕ → ℕ)
    attempt = copy_out c.buf_size c.read_pos text (place c.buf_size c.read_pos (used c)) c.buf_base

    unread-kept : peek c.buf_size c.read_pos (used c) 0 attempt.1 ≡ unread c
    unread-kept =
        peek-before c.buf_size c.read_pos valid.reads (used c) (used c) 0 text c.buf_base used-lt
          (omega arith)

    put-some : (offset : ℕ) → attempt.0 ≡ some offset → Outcome text (put (some offset, attempt.1))
    put-some offset e =
        let size = c.buf_size in
        let read = c.read_pos in
        let n = length text in
        let (room, follows, stands) =
          copy_out-some size read valid.reads text (used c) offset c.buf_base used-lt e in
        let c' = record c { buf_base = attempt.1; write_pos = offset } in
        let count : used c' ≡ used c + n =
          ap (λ o. used (record c { buf_base = attempt.1; write_pos = o })) follows
          ∙ used-place (used c + n) attempt.1 c.overflow_events room in
        let low : offset < size = ground (arith, valid.reads) in
        let start : 0 + used c ≡ used c = omega arith in
        (
          record { reads = valid.reads; writes = low },
          inl (
            refl,
            ap (λ k. peek size read k 0 attempt.1) count
                ∙ peek-++ size read (used c) n 0 attempt.1
                ∙ ap₂ (λ (x y : Text). x ++ y) unread-kept
                    (ap (λ k. peek size read n k attempt.1) start ∙ stands),
          ),
        )

    put-none : attempt.0 ≡ none → Outcome text (put (none, attempt.1))
    put-none e = (
      record { reads = valid.reads; writes = valid.writes },
      inr (
        refl,
        unread-kept,
        refl,
        copy_out-none c.buf_size c.read_pos valid.reads text (used c) c.buf_base used-lt e,
      ),
    )

  -- On a valid ring buffer a write of a message keeps it valid. If it returns OS_SUCCESS the
  -- device's name and the message follow what waited to be read; else it returns OS_QUEUE_FULL,
  -- what waited to be read is the same, the overflow is counted, and name and message had not
  -- enough room.
  pub put_message_lem :
      (str : Text)
      → let (code, c') = put_message str c in
        IsValid c'
        × (((code ≡ os_success) × (unread c' ≡ unread c ++ (c.device_name ++ str)))
            ⊎ ((code ≡ os_queue_full)
                × (unread c' ≡ unread c)
                × (c'.overflow_events ≡ (c.overflow_events + 1) % 2 ^ 32)
                × (c.buf_size ≤ used c + length (c.device_name ++ str))))
  unfolding put_message
  put_message_lem str =
      let text = c.device_name ++ str in
      subst (λ r. Outcome text (put r)) (sym (copy_message-eq str))
        (elim (Option-cases (attempt text).0) [
          | inr (offset, e) ↦
              subst (λ (o : Option ℕ). Outcome text (put (o, (attempt text).1))) (sym e)
                (put-some text offset e)
          | inl e ↦
              subst (λ (o : Option ℕ). Outcome text (put (o, (attempt text).1))) (sym e)
                (put-none text e)
        ])
