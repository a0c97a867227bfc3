-- ===== src/Engagement/Gateway/Throttle.antt =====
-- The throttle: a sliding window of one second for each attendee and device.
use flock_os.Engagement.Session.{second}
use flock_os.Engagement.Gateway.{Gateway, new_gateway, throttle_allows, recent}
use flock_os.Base.Dict.{lookup, or_default, lookup-insert}
use flock_os.Base.{
  ℕ, ◌+◌, ◌≤◌, ◌≡◌, String, string_eq, ◌==◌, Bool-cases, inl, inr, List, [], ◌∷◌, ◌++◌, count,
  length, length-append, length-filter, length-filter-le, append-nil, ltb, leb, if◌then◌else◌,
  arith,
}

abbrev pub bucket : String → Gateway → List ℕ
bucket key g = or_default [] (lookup key g.throttle)

-- No bucket holds more stamps than the throttle allows in a second.
pub record IsThrottled (max : ℕ) (g : Gateway) : Type 0 where
  pub bounded : (key : String) → length (bucket key g) ≤ max

pub new_gateway-IsThrottled : (max : ℕ) (secret : String) → IsThrottled max (new_gateway secret)
new_gateway-IsThrottled max secret = record { bounded = λ key. omega arith }

bucket-throttle_allows :
    (key other : String) (now max : ℕ) (g : Gateway)
    → bucket other (throttle_allows key now max g).1 ≡ (
        if key == other
        then recent now (bucket key g)
          ++ (if (throttle_allows key now max g).0 then now ∷ [] else [])
        else bucket other g)
unfolding throttle_allows
bucket-throttle_allows key other now max g =
    let stamps = recent now (bucket key g) in
    elim (Bool-cases (leb max (length stamps))) [
      | inl full ↦ ground (arith, append-nil stamps, lookup-insert key other stamps g.throttle)
      | inr room ↦ ground (arith, lookup-insert key other (stamps ++ now ∷ []) g.throttle)
    ]

length-recent : (now : ℕ) (stamps : List ℕ) → length (recent now stamps) ≤ length stamps
length-recent now stamps = length-filter-le (λ ts. leb now (ts + second)) stamps

bounded-throttle_allows :
    (key other : String) (now max : ℕ) (g : Gateway)
    → IsThrottled max g
    → length (bucket other (throttle_allows key now max g).1) ≤ max
bounded-throttle_allows key other now max g throttled =
    rw (bucket-throttle_allows key other now max g) (elim (Bool-cases (key == other)) [
      | inr else_where ↦ rw else_where (throttled.bounded other)
      | inl here ↦
          let stamps = recent now (bucket key g) in
          let bound = throttled.bounded key in
          let shorter = length-recent now (bucket key g) in
          unfold throttle_allows in
          rw here (ground (arith, length-append stamps (now ∷ []), append-nil stamps))
    ])

-- An interaction passes the throttle exactly when its bucket holds fewer stamps of the last second
-- than are allowed; the buckets of the others stay as they are, and no bucket grows over the bound.
pub throttle_allows_lem :
    (key other : String) (now max : ℕ) (g : Gateway)
    → IsThrottled max g
    → ((throttle_allows key now max g).0
        ≡ ltb (count (λ ts. leb now (ts + second)) (bucket key g)) max)
      × (bucket other (throttle_allows key now max g).1 ≡ (
          if key == other
          then recent now (bucket key g)
            ++ (if (throttle_allows key now max g).0 then now ∷ [] else [])
          else bucket other g))
      × IsThrottled max (throttle_allows key now max g).1
throttle_allows_lem key other now max g throttled = (
  unfold throttle_allows in
      ground (arith, length-filter (λ ts. leb now (ts + second)) (bucket key g)),
  bucket-throttle_allows key other now max g,
  record { bounded = λ k. bounded-throttle_allows key k now max g throttled },
)
