-- ===== src/Timer/Timers/Ring.antt =====
-- The ring of the timers of a time base, seen as the list of its timers: the links that
-- OS_DoTimerAdd and OS_TimerDelete write (osapi-time.c).
use Prim.{Unit}
use hello_world_osal.Base.{ℕ, ◌≡◌, ◌≢◌, refl, sym, ◌∙◌, subst, arith, List, [], ◌∷◌, ◌++◌}
use hello_world_osal.Idmap.Tables.{TimecbRecord}
use hello_world_osal.Timer.Timers.{link, unlink}
use hello_world_osal.Timer.Timers.Links.{next-link, prev-link, next-unlink, prev-unlink}

-- `n` is none of the timers of the list.
abbrev pub IsApart : ℕ → List ℕ → Type 0
IsApart n [] = Unit {0}
IsApart n (x ∷ xs) = (n ≢ x) × IsApart n xs

abbrev pub IsDistinct : List ℕ → Type 0
IsDistinct [] = Unit {0}
IsDistinct (x ∷ xs) = IsApart x xs × IsDistinct xs

-- The links lead from `a` through the list to `b`, and back.
abbrev pub Leads : (ℕ → TimecbRecord) → ℕ → List ℕ → ℕ → Type 0
Leads table a [] b = ((table a).next_ref ≡ b) × ((table b).prev_ref ≡ a)
Leads table a (x ∷ xs) b = ((table a).next_ref ≡ x) × ((table x).prev_ref ≡ a) × Leads table x xs b

-- The ring that starts with `a` and goes on through the list.
abbrev pub IsRing : (ℕ → TimecbRecord) → ℕ → List ℕ → Type 0
IsRing table a xs = IsDistinct (a ∷ xs) × Leads table a xs a

-- The timer before `b` is one of the list.
last-IsApart :
    (table : ℕ → TimecbRecord) (a b c : ℕ) (xs : List ℕ)
    → Leads table a xs b
    → IsApart c (a ∷ xs)
    → c ≢ (table b).prev_ref
last-IsApart table a b c [] (go, back) (ne, apart) = λ e. ne (e ∙ back)
last-IsApart table a b c (x ∷ xs) (go, back, rest) (ne, apart) =
    last-IsApart table x b c xs rest apart

-- Links that differ only behind the timers `l` and `r` and before `n` and `m`.
module _ (table table' : ℕ → TimecbRecord) (l r n m : ℕ)
    (next_kept : (i : ℕ) → i ≢ l → i ≢ r → (table' i).next_ref ≡ (table i).next_ref)
    (prev_kept : (i : ℕ) → i ≢ n → i ≢ m → (table' i).prev_ref ≡ (table i).prev_ref) where
  -- If the last timer is `l`, they may lead to `n` now.
  Leads-to :
      (a b : ℕ) (xs : List ℕ)
      → Leads table a xs b
      → (table b).prev_ref ≡ l
      → (table' l).next_ref ≡ n
      → (table' n).prev_ref ≡ l
      → IsDistinct (a ∷ xs)
      → IsApart r (a ∷ xs)
      → IsApart n xs
      → IsApart m xs
      → Leads table' a xs n
  Leads-to a b [] (go, back) last go' back' distinct apart fresh fresh' =
      let e = sym last ∙ back in (subst (λ i. (table' i).next_ref ≡ n) e go', back' ∙ e)
  Leads-to a b (x ∷ xs) (go, back, rest) last go' back' (da, dx) (ra, apart) (nx, fresh)
        (mx, fresh') =
      let ne : a ≢ l = subst (λ i. a ≢ i) last (last-IsApart table x b a xs rest da) in
      (
        next_kept a ne (λ e. ra (sym e)) ∙ go,
        prev_kept x (λ e. nx (sym e)) (λ e. mx (sym e)) ∙ back,
        Leads-to x b xs rest last go' back' dx apart fresh fresh',
      )

  -- A stretch that meets none of the places is as it was.
  pub Leads-kept :
      (a b : ℕ) (xs : List ℕ)
      → Leads table a xs b
      → IsApart l (a ∷ xs)
      → IsApart r (a ∷ xs)
      → IsApart n xs
      → IsApart m xs
      → n ≢ b
      → m ≢ b
      → Leads table' a xs b
  Leads-kept a b [] (go, back) (la, _) (ra, _) fresh fresh' nb mb = (
    next_kept a (λ e. la (sym e)) (λ e. ra (sym e)) ∙ go,
    prev_kept b (λ e. nb (sym e)) (λ e. mb (sym e)) ∙ back,
  )
  Leads-kept a b (x ∷ xs) (go, back, rest) (la, lx) (ra, rx) (nx, fresh) (mx, fresh') nb mb = (
    next_kept a (λ e. la (sym e)) (λ e. ra (sym e)) ∙ go,
    prev_kept x (λ e. nx (sym e)) (λ e. mx (sym e)) ∙ back,
    Leads-kept x b xs rest lx rx fresh fresh' nb mb,
  )

-- A new timer comes before the first, and becomes the first.
pub link-IsRing :
    (table : ℕ → TimecbRecord) (n h : ℕ) (xs : List ℕ)
    → IsRing table h xs
    → IsApart n (h ∷ xs)
    → IsRing (link n h table) n (h ∷ xs)
link-IsRing table n h xs ((dh, dx), ring) (nh, apart) =
    let l = (table h).prev_ref in
    let ne : n ≢ l = last-IsApart table h h n xs ring (nh, apart) in
    (
      ((nh, apart), (dh, dx)),
      (
        next-link table n h n ∙ ground arith,
        prev-link table n h h ne ∙ ground arith,
        Leads-to table (link n h table) l n n h (λ i a b. next-link table n h i ∙ ground arith)
            (λ i a b. prev-link table n h i ne ∙ ground arith) h h xs ring refl
            (next-link table n h l ∙ ground arith) (prev-link table n h n ne ∙ ground arith)
            (dh, dx) (nh, apart) apart dh,
      ),
    )

-- What `unlink` keeps.
module _ (table : ℕ → TimecbRecord) (x : ℕ) where
  unlink-next_kept :
      (i : ℕ) → i ≢ (table x).prev_ref → i ≢ x → (unlink x table i).next_ref ≡ (table i).next_ref
  unlink-next_kept i a b = next-unlink table x i ∙ ground arith

  unlink-prev_kept :
      (i : ℕ) → i ≢ (table x).next_ref → i ≢ x → (unlink x table i).prev_ref ≡ (table i).prev_ref
  unlink-prev_kept i a b = prev-unlink table x i ∙ ground arith

  unlink-before :
      (i : ℕ) → i ≡ (table x).prev_ref → i ≢ x → (unlink x table i).next_ref ≡ (table x).next_ref
  unlink-before i e ne = next-unlink table x i ∙ ground arith

  unlink-after :
      (i : ℕ) → i ≡ (table x).next_ref → i ≢ x → (unlink x table i).prev_ref ≡ (table x).prev_ref
  unlink-after i e ne = prev-unlink table x i ∙ ground arith

-- The first timer leaves the ring, and the next is the first.
pub unlink-first :
    (table : ℕ → TimecbRecord) (h y : ℕ) (ys : List ℕ)
    → IsRing table h (y ∷ ys)
    → IsRing (unlink h table) y ys
unlink-first table h y ys (((hy, dh), (dy, dys)), (go, back, rest)) =
    let l = (table h).prev_ref in
    let away : h ≢ l = last-IsApart table y h h ys rest (hy, dh) in
    (
      (dy, dys),
      Leads-to table (unlink h table) l h y h (unlink-next_kept table h)
          (λ i a. unlink-prev_kept table h i (λ e. a (e ∙ go))) y h ys rest refl
          (unlink-before table h l refl (λ e. away (sym e)) ∙ go)
          (unlink-after table h y (sym go) (λ e. hy (sym e))) (dy, dys) (hy, dh) dy dh,
    )

-- A timer in the middle of a list.
module _ (x : ℕ) (post : List ℕ) where
  mid-≢ : (c : ℕ) (pre : List ℕ) → IsApart c (pre ++ x ∷ post) → c ≢ x
  mid-≢ c [] (ne, apart) = ne
  mid-≢ c (y ∷ pre) (ne, apart) = mid-≢ c pre apart

  drop-IsApart : (c : ℕ) (pre : List ℕ) → IsApart c (pre ++ x ∷ post) → IsApart c (pre ++ post)
  drop-IsApart c [] (ne, apart) = apart
  drop-IsApart c (y ∷ pre) (ne, apart) = (ne, drop-IsApart c pre apart)

  drop-IsDistinct : (pre : List ℕ) → IsDistinct (pre ++ x ∷ post) → IsDistinct (pre ++ post)
  drop-IsDistinct [] (apart, distinct) = distinct
  drop-IsDistinct (y ∷ pre) (apart, distinct) =
      (drop-IsApart y pre apart, drop-IsDistinct pre distinct)

  -- Its neighbours are in the list, or at its ends.
  mid-prev :
      (table : ℕ → TimecbRecord) (a b c : ℕ) (pre : List ℕ)
      → Leads table a (pre ++ x ∷ post) b
      → IsApart c (a ∷ pre ++ x ∷ post)
      → c ≢ (table x).prev_ref
  mid-prev table a b c [] (go, back, rest) (ne, apart) = λ e. ne (e ∙ back)
  mid-prev table a b c (y ∷ pre) (go, back, rest) (ne, apart) = mid-prev table y b c pre rest apart

  mid-next :
      (table : ℕ → TimecbRecord) (a b c : ℕ) (pre : List ℕ)
      → Leads table a (pre ++ x ∷ post) b
      → IsApart c (pre ++ x ∷ post)
      → c ≢ b
      → c ≢ (table x).next_ref
  mid-next table a b c [] (go, back, rest) (nx, apart) ne = head-next post rest apart
    where
      head-next : (p : List ℕ) → Leads table x p b → IsApart c p → c ≢ (table x).next_ref
      head-next [] (go', back') apart' = λ e. ne (e ∙ go')
      head-next (y ∷ p) (go', back', rest') (ny, apart') = λ e. ny (e ∙ go')
  mid-next table a b c (y ∷ pre) (go, back, rest) (nx, apart) ne =
      mid-next table y b c pre rest apart ne

  -- The links that lead to `b` past it.
  unlink-Leads :
      (table : ℕ → TimecbRecord) (a b : ℕ) (pre : List ℕ)
      → Leads table a (pre ++ x ∷ post) b
      → IsDistinct (a ∷ pre ++ x ∷ post)
      → IsApart b (pre ++ x ∷ post)
      → Leads (unlink x table) a (pre ++ post) b
  unlink-Leads table a b [] (go, back, rest) ((ax, ap'), (dx, dp)) (bx, bp) =
      past post rest dx bp ap' dp
    where
      past :
          (p : List ℕ)
          → Leads table x p b
          → IsApart x p
          → IsApart b p
          → IsApart a p
          → IsDistinct p
          → Leads (unlink x table) a p b
      past [] (go', back') dx' bp' ap'' dp' =
          (unlink-before table x a (sym back) ax ∙ go', unlink-after table x b (sym go') bx ∙ back)
      past (y ∷ ys) (go', back', rest') (xy, dx') (by, bp') (ay, ap'') (dy, dp') = (
        unlink-before table x a (sym back) ax ∙ go',
        unlink-after table x y (sym go') (λ e. xy (sym e)) ∙ back,
        Leads-kept table (unlink x table) a x y x
            (λ i ne. unlink-next_kept table x i (λ e. ne (e ∙ back)))
            (λ i ne. unlink-prev_kept table x i (λ e. ne (e ∙ go'))) y b ys rest' (ay, ap'')
            (xy, dx') dy dx' (λ e. by (sym e)) (λ e. bx (sym e)),
      )
  unlink-Leads table a b (z ∷ zs) (go, back, rest) ((az, da), (dz, dzs)) (bz, bp) = (
    unlink-next_kept table x a (mid-prev table z b a zs rest (az, da)) (mid-≢ a zs da) ∙ go,
    unlink-prev_kept table x z (mid-next table z b z zs rest dz (λ e. bz (sym e))) (mid-≢ z zs dz)
        ∙ back,
    unlink-Leads table z b zs rest (dz, dzs) bp,
  )

  -- A timer other than the first leaves the ring.
  pub unlink-other :
      (table : ℕ → TimecbRecord) (h : ℕ) (pre : List ℕ)
      → IsRing table h (pre ++ x ∷ post)
      → IsRing (unlink x table) h (pre ++ post)
  unlink-other table h pre ((dh, dp), ring) =
      ((drop-IsApart h pre dh, drop-IsDistinct pre dp), unlink-Leads table h h pre ring (dh, dp) dh)
