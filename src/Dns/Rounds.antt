-- ===== src/Dns/Rounds.antt =====
-- src/DnsSeeker.cpp, `parseEvent`: 256 rounds of the loop that skips a name are enough.
use cdn_uring.Prelude.{
  ℕ, zero, suc, ◌+◌, ◌%◌, ◌^◌, ◌<◌, ◌≡◌, ◌∙◌, sym, Bool, true, get_or, arith, Bool-cases, inl, inr,
}
use cdn_uring.Prelude.Rounds.{runs, runs_less, runs_forever}
use cdn_uring.Prelude.Text.{Text}
use cdn_uring.Dns.Name.{skip_name}
use cdn_uring.Dns.Receive.{goes_on}

module _ (name : Text) (room : ℕ) where
  -- The next value of the counter.
  step : ℕ → ℕ
  step offs = (offs + (get_or name offs 0 + 1)) % 2 ^ 8

  step_bounded : (offs : ℕ) → step offs < 256
  unfolding step
  step_bounded offs = omega arith

  lasts : ℕ → ℕ → Bool
  lasts = runs 256 (goes_on name room) step step_bounded

  lasts-skip_name :
      (n offs : ℕ) → lasts (suc n) offs ≡ goes_on name room (skip_name n name room offs)
  unfolding lasts runs skip_name step
  lasts-skip_name zero offs = ground arith
  lasts-skip_name (suc n) offs = elim (Bool-cases (goes_on name room offs)) [
    | inl on ↦ rw on (lasts-skip_name n (step offs))
    | inr off ↦ rw off (sym off)
  ]

  -- The loop that skips the name in a packet ends within 256 rounds, or it goes on after any number of
  -- rounds.
  skip_name_ends :
      goes_on name room (skip_name 256 name room 0) ≡ true
      → (n : ℕ) → goes_on name room (skip_name n name room 0) ≡ true
  unfolding lasts
  skip_name_ends on n =
      sym (lasts-skip_name n 0)
      ∙ runs_forever 256 (goes_on name room) step step_bounded 0 (omega arith)
          (runs_less 256 (goes_on name room) step step_bounded 256 0 (lasts-skip_name 256 0 ∙ on))
          (suc n)
