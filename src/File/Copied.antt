-- ===== src/File/Copied.antt =====
-- What the loop of OS_cp copies (osapi-file.c), over a layer below that reads and writes as documented.
use Prim.{Unit, tt}
use hello_world_osal.Base.{
  ℕ, zero, suc, ◌<◌, ◌≡◌, ◌⊎◌, inl, inr, refl, sym, ap, ◌∙◌, arith, ℤ, pos, negsuc, false, Option,
  some, Text, [], ◌∷◌, ◌++◌, length, take, drop, is_success, os_success,
}
use hello_world_osal.Idmap.State.{Os, Port, ObjtypeState}
use hello_world_osal.FileSys.Search.{length-drop}
use hello_world_osal.File.{FileImpl, pend, read, write, timed_read, timed_write}
use hello_world_osal.File.Copy.{write_all, and_then, copy_loop}
use hello_world_osal.File.Usable.{IsUsable-owners}
use hello_world_osal.File.Disk.{IsDisk, append_assoc, append-nil, take-drop, length-take, two_parts}
use hello_world_osal.File.Rounds.{
  write_all-nil, write_all-step, write_all-fails, has_read, copy_loop-read, and_then-fails,
  and_then-goes,
}
use hello_world_osal.File.Reference.{IsUsable, on_reference-eq}

module _ {K : Type 0} (p : Port K) (impl : FileImpl K) (i j : ℕ) (left made : K → Text)
    (disk : IsDisk impl i j left made) (file1 file2 : ℕ) (s : Os K) where
  -- The states during the copy: only the layer below and the owners of the tables change.
  abbrev at : K → (ℕ → ObjtypeState) → Os K
  at k o = record s { kernel = k; objtype_state = o }

  read-at :
      (b : ℕ) (block : Text) (k : K) (o : ℕ → ObjtypeState)
      → IsUsable p file1 i (at k o)
      → let (c, after, k') = disk.reads (b ∷ block) k in
        (o' : ℕ → ObjtypeState) × (read p impl file1 (some (b ∷ block)) (at k o)
          ≡ (c, some after, at k' o'))
  unfolding read timed_read
  read-at b block k o u =
      let (c, after, k') = disk.reads (b ∷ block) k in
      let (o', e) =
        on_reference-eq p file1 i (at k o) (b ∷ block) after c k'
          (λ q. impl.read_impl q (b ∷ block) pend) u
          (λ q same.
            disk.read_runs (b ∷ block) q
            ∙ ap
                (λ (m : K).
                  (let (c1, after1, k1) = disk.reads (b ∷ block) m in
                    (c1, after1, record q { kernel = k1 })))
                same) in
      (o', ap (λ (r : ℤ × Text × Os K). (r.0, some r.1, r.2)) e)

  write-at :
      (b : ℕ) (rest : Text) (k : K) (o : ℕ → ObjtypeState)
      → IsUsable p file2 j (at k o)
      → let (c, k') = disk.writes (b ∷ rest) k in
        (o' : ℕ → ObjtypeState) × (write p impl file2 (some (b ∷ rest)) (at k o) ≡ (c, at k' o'))
  unfolding write timed_write
  write-at b rest k o u =
      let (c, k') = disk.writes (b ∷ rest) k in
      let (o', e) =
        on_reference-eq p file2 j (at k o) tt tt c k'
          (λ q s1. (let (c1, s2) = impl.write_impl q (b ∷ rest) pend s1 in (c1, tt, s2))) u
          (λ q same.
            ap (λ (r : ℤ × Os K). (r.0, tt, r.1))
              (disk.write_runs (b ∷ rest) q
                ∙ ap
                    (λ (m : K).
                      (let (c1, k1) = disk.writes (b ∷ rest) m in (c1, record q { kernel = k1 })))
                    same)) in
      (o', ap (λ (r : ℤ × Unit {0} × Os K). (r.0, r.2)) e)

  -- The end of a loop that was to write these bytes: all are written, and `rest` is left to read, or
  -- a call failed.
  abbrev pub Written : K → Text → Text → Option (ℤ × Os K) → Type 0
  Written k bytes rest r =
      (c : ℤ) × (k' : K) × (o : ℕ → ObjtypeState) × (r ≡ some (c, at k' o))
      × (((c ≡ os_success) × (made k' ≡ made k ++ bytes) × (left k' ≡ rest))
          ⊎ (is_success c ≡ false))

  more_written :
      (k k' : K) (n : ℕ) (bytes : Text) (c : ℤ) (k2 : K)
      → made k' ≡ made k ++ take n bytes
      → left k' ≡ left k
      → ((c ≡ os_success) × (made k2 ≡ made k' ++ drop n bytes) × (left k2 ≡ left k'))
        ⊎ (is_success c ≡ false)
      → ((c ≡ os_success) × (made k2 ≡ made k ++ bytes) × (left k2 ≡ left k))
        ⊎ (is_success c ≡ false)
  more_written k k' n bytes c k2 wrote kept (inr bad) = inr bad
  more_written k k' n bytes c k2 wrote kept (inl (ok_code, all, same)) = inl (
    ok_code,
    all
        ∙ ap (λ t. t ++ drop n bytes) wrote
        ∙ append_assoc (made k) (take n bytes) (drop n bytes)
        ∙ ap (λ t. made k ++ t) (take-drop n bytes),
    same ∙ kept,
  )

  module _ (u1 : IsUsable p file1 i s) (u2 : IsUsable p file2 j s) where
    write_all-Written :
        (fuel : ℕ) (rest : Text) (k : K) (o : ℕ → ObjtypeState)
        → length rest < fuel
        → Written k rest (left k) (write_all p impl fuel file2 rest (at k o))
    write_all-Written zero rest k o h = absurd (omega (arith, h))
    write_all-Written (suc fuel) [] k o h = (
      os_success,
      k,
      o,
      write_all-nil p impl file1 file2 fuel (at k o),
      inl (refl, sym (append-nil (made k)), refl),
    )
    write_all-Written (suc fuel) (b ∷ rest) k o h =
        let (c, k') = disk.writes (b ∷ rest) k in
        let (o', e) = write-at b rest k o (IsUsable-owners p file2 j s o k u2) in
        elim (disk.taken (b ∷ rest) k (omega arith)) [
          | inr (n, failed) ↦ (
            negsuc n,
            k',
            o',
            write_all-fails p impl file1 file2 fuel b n rest (at k o) (at k' o')
                (e ∙ ap (λ (z : ℤ). (z, at k' o')) failed),
            inr refl,
          )
          | inl (n, fine, more, fits, wrote, kept) ↦
              let next = drop n (b ∷ rest) in
              let shorter : length next < fuel =
                omega (arith, h, more, fits, length-drop n (b ∷ rest)) in
              let (c2, k2, o2, e2, out) = write_all-Written fuel next k' o' shorter in
              (
                c2,
                k2,
                o2,
                write_all-step p impl file1 file2 fuel b n rest (at k o) (at k' o')
                      (e ∙ ap (λ (z : ℤ). (z, at k' o')) fine)
                    ∙ e2,
                more_written k k' n (b ∷ rest) c2 k2 wrote kept out,
              )
        ]

    -- What comes out of the rest of the loop, after a read of `suc n` bytes.
    rest-Written :
        (limit n : ℕ) (after : Text) (k k1 : K) (o1 : ℕ → ObjtypeState)
        (next : Os K → Option (ℤ × Os K))
        → length (take (suc n) after) < limit
        → take (suc n) after ≡ take (suc n) (left k)
        → left k1 ≡ drop (suc n) (left k)
        → made k1 ≡ made k
        → ((k2 : K) (o2 : ℕ → ObjtypeState)
            → left k2 ≡ drop (suc n) (left k)
            → Written k2 (left k2) [] (next (at k2 o2)))
        → Written k
            (left k)
            []
            (and_then (write_all p impl limit file2 (take (suc n) after) (at k1 o1)) next)
    rest-Written limit n after k k1 o1 next room same rest kept go =
        let (c2, k2, o2, e2, out) = write_all-Written limit (take (suc n) after) k1 o1 room in
        elim out [
          | inr bad ↦ (
            c2,
            k2,
            o2,
            ap (λ r. and_then r next) e2 ∙ and_then-fails c2 (at k2 o2) next bad,
            inr bad,
          )
          | inl (fine, wrote, left2) ↦
              let (c3, k3, o3, e3, out3) = go k2 o2 (left2 ∙ rest) in
              (
                c3,
                k3,
                o3,
                ap (λ r. and_then r next) e2 ∙ and_then-goes c2 (at k2 o2) next fine ∙ e3,
                elim out3 [
                  | inr bad ↦ inr bad
                  | inl (fine3, wrote3, left3) ↦ inl (
                    fine3,
                    two_parts (suc n) after (left k) (left k2) (made k) (made k2) (made k3) same
                        (left2 ∙ rest) (wrote ∙ ap (λ t. t ++ take (suc n) after) kept) wrote3,
                    left3,
                  )
                ],
              )
        ]

    -- The loop of OS_cp, if it has more fuel than bytes to read and the inner loop more than a
    -- block has bytes, comes to an end, and OS_SUCCESS means that all that was left of the first
    -- file was added to the second in its order: over a layer below that reads and writes as
    -- documented, perhaps in parts, with two streams that no exclusive request waits for.
    pub copy_loop-Written :
        (fuel limit : ℕ) (block : Text) (k : K) (o : ℕ → ObjtypeState)
        → length (left k) < fuel
        → 0 < length block
        → length block < limit
        → Written k (left k) [] (copy_loop p impl fuel limit file1 file2 block (at k o))
    unfolding drop
    copy_loop-Written zero limit block k o h some_room room = absurd (omega (arith, h))
    copy_loop-Written (suc fuel) limit [] k o h some_room room = absurd (omega (arith, some_room))
    copy_loop-Written (suc fuel) limit (b ∷ block) k o h some_room room =
        let (c, after, k1) = disk.reads (b ∷ block) k in
        let (o1, e) = read-at b block k o (IsUsable-owners p file1 i s o k u1) in
        let next : (c' : ℤ)
            → c ≡ c'
            → copy_loop p impl (suc fuel) limit file1 file2 (b ∷ block) (at k o)
              ≡ has_read p impl file1 file2 fuel limit (c', some after, at k1 o1) =
          λ c' q.
            copy_loop-read p impl file1 file2 fuel limit (b ∷ block) (at k o) (at k1 o1) c
              (some after) e
            ∙ ap (λ (z : ℤ). has_read p impl file1 file2 fuel limit (z, some after, at k1 o1)) q in
        elim (disk.next_bytes (b ∷ block) k (omega arith)) [
          | inr (n, failed) ↦ (negsuc n, k1, o1, next (negsuc n) failed, inr refl)
          | inl (zero, fine, fits, there, end, size, same, rest, kept) ↦ (
            os_success,
            k1,
            o1,
            next (pos 0) fine,
            inl (
              refl,
              kept ∙ sym (append-nil (made k)) ∙ ap (λ t. made k ++ t) (sym (end refl)),
              rest ∙ end refl,
            ),
          )
          | inl (suc n, fine, fits, there, end, size, same, rest, kept) ↦
              let out =
                rest-Written limit n after k k1 o1 (copy_loop p impl fuel limit file1 file2 after)
                  (omega (arith, room, fits, length-take (suc n) after)) same rest kept
                  (λ k2 o2 left2.
                    copy_loop-Written fuel limit after k2 o2
                      (omega (arith, h, there, ap length left2, length-drop (suc n) (left k)))
                      (omega (arith, some_room, size)) (omega (arith, room, size))) in
              (out.0, out.1, out.2, next (pos (suc n)) fine ∙ out.3, out.4)
        ]
