-- ===== src/Backoff/Delay.antt =====
-- The delay that a failure sets: the saturating code against the exponential that it stands for.
use p2p_service.Prelude.{
  ℕ, ◌+◌, ◌-◌, ◌*◌, ◌%◌, ◌^◌, ◌≤◌, ◌<◌, ◌≡◌, refl, min, List, [], ◌∷◌, arith, length, if_pos,
  dec_lt, leb,
}
use p2p_service.HashMap
use p2p_service.HashMap.Laws.{get-insert}
use p2p_service.Backoff.{
  DialBackoff, u32_max, duration_max, saturating_pow_2, saturating_mul, capped_delay, next_failures,
  failures_of, record_failure, ready, new,
}

-- One saturated factor makes no difference below a cap that the saturated product reaches.
saturated :
    (b x u d top : ℕ) → top ≤ d → top ≤ b * u → min (min (b * min x u) d) top ≡ min (b * x) top
saturated b x u d top hd hu = elim (dec_lt x u) [
  | yes h ↦ rw (min_left x u h) (omega arith)
  | no h ↦ rw (min_right x u h) (omega (arith, mul_mono b u x (omega arith)))
]
  where
    min_left : (x u : ℕ) → x < u → min x u ≡ x
    min_left x u h = omega arith

    min_right : (x u : ℕ) → ¬ (x < u) → min x u ≡ u
    min_right x u h = omega arith

    mul_mono : (a b c : ℕ) → b ≤ c → a * b ≤ a * c
    mul_mono a b c h = grind arith

-- For a cap that base * (2^32 - 1) reaches, the saturating delay after some failures is base *
-- 2^(failures - 1), capped: neither saturation shows.
pub capped_delay-exponential :
    (base top failures : ℕ)
    → top ≤ duration_max
    → top ≤ base * u32_max
    → capped_delay base top failures ≡ min (base * 2 ^ (failures - 1)) top
unfolding capped_delay saturating_mul saturating_pow_2
capped_delay-exponential base top failures hd hu =
    saturated base (2 ^ (failures - 1)) u32_max duration_max top hd hu

-- A run of failed dials of one peer, each with the time of the failure and its jitter.
abbrev pub Failure : Type 0
Failure = ℕ × (ℕ → ℕ)

length-drop_one {ℓ} : {A : Type ℓ} (xs : List A) → length xs + 1 - 1 ≡ length xs
length-drop_one xs = omega arith

module _ {P : Type 0} (dec : Discrete P) where
  unfoldable pub fail_all : DialBackoff P → P → List Failure → DialBackoff P
  fail_all b peer [] = b
  fail_all b peer ((now, jittered) ∷ fs) = fail_all (record_failure dec jittered b peer now) peer fs

  abbrev pub failures_on_record : DialBackoff P → P → ℕ
  failures_on_record b peer = failures_of (HashMap.get dec peer b.state)

  pub failures_on_record-record_failure :
      (b : DialBackoff P) (peer : P) (now : ℕ) (jittered : ℕ → ℕ)
      → failures_on_record (record_failure dec jittered b peer now) peer
        ≡ (failures_on_record b peer + 1) % 2 ^ 32
  unfolding record_failure failures_of next_failures
  failures_on_record-record_failure b peer now jittered =
      rw (get-insert dec peer peer) (rw (if_pos (dec peer peer) refl))

  -- The counter counts the failures of the run, on top of those on record.
  pub failures-fail_all :
      (b : DialBackoff P) (peer : P) (fs : List Failure)
      → failures_on_record b peer + length fs < 2 ^ 32
      → failures_on_record (fail_all b peer fs) peer ≡ failures_on_record b peer + length fs
  unfolding fail_all
  failures-fail_all b peer [] h = omega arith
  failures-fail_all b peer ((now, jittered) ∷ fs) h =
      let step = failures_on_record-record_failure b peer now jittered in
      omega (
        arith,
        step,
        failures-fail_all (record_failure dec jittered b peer now) peer fs (omega (arith, step)),
      )

  fail_all-caps :
      (b : DialBackoff P) (peer : P) (fs : List Failure)
      → ((fail_all b peer fs).base ≡ b.base) × ((fail_all b peer fs).cap ≡ b.cap)
  unfolding fail_all record_failure
  fail_all-caps b peer [] = (refl, refl)
  fail_all-caps b peer ((now, jittered) ∷ fs) =
      fail_all-caps (record_failure dec jittered b peer now) peer fs

  ready-record_failure :
      (b : DialBackoff P) (peer : P) (now : ℕ) (jittered : ℕ → ℕ) (later : ℕ)
      → ready dec (record_failure dec jittered b peer now) peer later
        ≡ leb
            (now + jittered (capped_delay b.base b.cap ((failures_on_record b peer + 1) % 2 ^ 32)))
            later
  unfolding ready record_failure next_failures
  ready-record_failure b peer now jittered later = ground (
    arith,
    get-insert dec peer peer
        (record {
          failures = (failures_on_record b peer + 1) % 2 ^ 32;
          next_attempt =
              now + jittered (capped_delay b.base b.cap ((failures_on_record b peer + 1) % 2 ^ 32));
        })
        b.state,
  )

  -- After n failures in a row from a fresh table, one more failure at time `now` lets the peer be
  -- dialed from `now` plus the jittered base * 2^n, capped, and not before.
  pub ready-fail_all :
      (base top : ℕ) (peer : P) (fs : List Failure) (now : ℕ) (jittered : ℕ → ℕ) (later : ℕ)
      → top ≤ duration_max
      → top ≤ base * u32_max
      → length fs + 1 < 2 ^ 32
      → ready dec
          (record_failure dec jittered (fail_all (new base top) peer fs) peer now)
          peer
          later
        ≡ leb (now + jittered (min (base * 2 ^ length fs) top)) later
  ready-fail_all base top peer fs now jittered later hd hu hn =
      let b = fail_all (new base top) peer fs in
      let fresh : failures_on_record (new base top) peer ≡ 0 =
        unfold failures_of new HashMap.get in refl in
      let known : failures_on_record b peer ≡ length fs =
        omega (arith, fresh, failures-fail_all (new base top) peer fs (omega (arith, fresh))) in
      let counted : (failures_on_record b peer + 1) % 2 ^ 32 ≡ length fs + 1 =
        omega (arith, known) in
      let kept = fail_all-caps (new base top) peer fs in
      rw (ready-record_failure b peer now jittered later) (
        rw (kept.0, kept.1, counted)
          (unfold new in
            rw (capped_delay-exponential base top (length fs + 1) hd hu) (rw (length-drop_one fs))))
