-- ===== src/Timer/Calls.antt =====
-- Whole calls of the time bases (osapi-timebase.c).
use native.Mathlib.Nat.{mul-le-mul_left, mul-le-mul_right}
use hello_world_osal.Base.{
  ℕ, ◌+◌, ◌-◌, ◌*◌, ◌^◌, ◌<◌, ◌≤◌, ◌≡◌, ◌⊎◌, refl, ap, sym, ◌∙◌, arith, ℤ, true, false, Option,
  some, Text, length, os_success, os_error,
}
use hello_world_osal.Idmap.ObjectType
use hello_world_osal.Idmap.State.{Os, Port}
use hello_world_osal.Idmap.Lookup.{max_api_name}
use hello_world_osal.Service.{create}
use hello_world_osal.Service.Create.{Names}
use hello_world_osal.Service.Create.RoundTrip.{create-get_id_by_name}
use hello_world_osal.Service.Calls.{found_again}
use hello_world_osal.Timer.TimeBase.{
  TimeBaseImpl, timebase_store, milli2ticks, in_callback, time_base_create,
  time_base_get_id_by_name,
}

mul-le-mul : (a b c d : ℕ) → a ≤ c → b ≤ d → a * b ≤ c * d
mul-le-mul a b c d h k = omega (arith, mul-le-mul_right b h, mul-le-mul_left c k)

-- OS_Milli2Ticks on numbers: the least number of ticks that is long enough, if it is in the range.
module _ {K : Type 0} where
  -- For a time below 2^32 and a rate below 2^31, OS_Milli2Ticks succeeds with the least number of
  -- ticks that is not shorter than the time, below 2^31, or returns OS_ERROR with 0 ticks for a
  -- time of more than 2^31 - 1 ticks.
  pub milli2ticks_lem :
      (milli_seconds : ℕ) (s : Os K)
      → milli_seconds < 2 ^ 32
      → s.ticks_per_second < 2 ^ 31
      → let (code, ticks) = milli2ticks milli_seconds s in
        let n = milli_seconds * s.ticks_per_second in
        ((code ≡ os_success) × (n ≤ 1000 * ticks) × (1000 * ticks < n + 1000) × (ticks < 2 ^ 31))
        ⊎ ((code ≡ os_error) × (ticks ≡ 0) × (1000 * (2 ^ 31 - 1) < n))
  unfolding milli2ticks
  milli2ticks_lem milli_seconds s h k =
      let rate = s.ticks_per_second in
      let small : milli_seconds * rate ≤ 2 ^ 32 * 2 ^ 31 =
        mul-le-mul milli_seconds rate (2 ^ 32) (2 ^ 31) (omega (arith, h)) (omega (arith, k)) in
      ground (arith, small)

module _ {K : Type 0} where
  pub timebase_store-Names :
      (sync : Option ℕ) → Names {K = K} ObjectType.timebase (timebase_store sync)
  unfolding timebase_store
  timebase_store-Names sync = record {
    named = λ name i s. ground arith;
    others = λ name i s e ne. ground arith;
    owners = λ name i s. refl;
    on = λ name i s. refl;
    flag = λ name i s. refl;
  }

module _ {K : Type 0} (p : Port K) (impl : TimeBaseImpl K) where
  time_base_create-eq :
      (name : Text) (sync : Option ℕ) (s : Os K)
      → (time_base_create p impl true (some name) sync s).0 ≡ os_success
      → (length name < max_api_name)
        × (in_callback p ≡ false)
        × (time_base_create p impl true (some name) sync s
            ≡ create p ObjectType.timebase (timebase_store sync name) impl.create_impl name s)
  unfolding time_base_create
  time_base_create-eq name sync s done = ground (arith, done)

  -- OS_TimeBaseCreate succeeds only outside of a timer callback and with a name within the limit,
  -- and then OS_TimeBaseGetIdByName finds the new time base's ID by its name.
  pub time_base_create-time_base_get_id_by_name :
      (name : Text) (sync : Option ℕ) (s : Os K)
      → (time_base_create p impl true (some name) sync s).0 ≡ os_success
      → let (code, out, s') = time_base_create p impl true (some name) sync s in
        let (code', out', _) = time_base_get_id_by_name p impl true (some name) s' in
        (length name < max_api_name) × (in_callback p ≡ false) × (code' ≡ os_success) × (out' ≡ out)
  unfolding time_base_get_id_by_name
  time_base_create-time_base_get_id_by_name name sync s done =
      let (short, outside, same) = time_base_create-eq name sync s done in
      let (_, found) =
        create-get_id_by_name p ObjectType.timebase (timebase_store sync)
          (timebase_store-Names sync) impl.create_impl name s short
          (sym (ap (λ (r : ℤ × Option ℕ × Os K). r.0) same) ∙ done) in
      let (done', out') =
        found_again p ObjectType.timebase name (time_base_create p impl true (some name) sync s)
          (create p ObjectType.timebase (timebase_store sync name) impl.create_impl name s) same
          found in
      rw outside (short, refl, done', out')
