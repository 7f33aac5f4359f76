-- ===== src/NetSupport/Replies.antt =====
-- The replies of a server task.
use mathlib.Core.Logic.{◌↔◌}
use hello_world_osal.Base.{
  ℕ, zero, suc, ◌≤◌, ◌⊎◌, ◌+◌, ◌-◌, ◌%◌, ◌^◌, ◌<◌, ◌≡◌, refl, ap, arith, false, length,
}
use hello_world_osal.NetSupport.{buffer_len, fill_reply, fill_close, serve}

length-fill_reply : (count j : ℕ) → length (fill_reply count j).0 ≡ count
unfolding fill_reply
length-fill_reply zero j = refl
length-fill_reply (suc count) j = ap suc (length-fill_reply count ((j + (2 ^ 32 - 1)) % 2 ^ 32))

length-fill_close : (count : ℕ) → length (fill_close count) ≡ count
unfolding fill_close
length-fill_close zero = refl
length-fill_close (suc count) = ap suc (length-fill_close count)

fill_reply-next : (count j : ℕ) → count ≤ j → j < 2 ^ 32 → (fill_reply count j).1 + count ≡ j
unfolding fill_reply
fill_reply-next zero j h small = omega arith
fill_reply-next (suc count) j h small =
    let less : (j + (2 ^ 32 - 1)) % 2 ^ 32 + 1 ≡ j = omega arith in
    omega (
      arith,
      less,
      fill_reply-next count ((j + (2 ^ 32 - 1)) % 2 ^ 32) (omega (arith, less))
          (omega (arith, less)),
    )

-- A server task fills the whole reply buffer for every message and ends the connection exactly on
-- a message that starts with two words 9; else its counter goes down by the size of the buffer,
-- while it is at least that.
pub serve_lem :
    (first second j : ℕ)
    → buffer_len ≤ j
    → j < 2 ^ 32
    → let (goes_on, reply, next) = serve first second j in
      (length reply ≡ buffer_len)
      × ((goes_on ≡ false) ↔ ((first ≡ 9) × (second ≡ 9)))
      × ((goes_on ≡ false) ⊎ (next + buffer_len ≡ j))
unfolding serve
serve_lem first second j enough small = ground (
  arith,
  length-fill_reply buffer_len j,
  length-fill_close buffer_len,
  fill_reply-next buffer_len j enough small,
)
