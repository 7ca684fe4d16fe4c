-- ===== src/Errors/Rules.antt =====
-- What the table and the constructor allow.
use trader_joe.Base.{
  leb, leb→le, leb-false→lt, ◌<◌, arith, ℕ, ◌+◌, ◌-◌, ◌*◌, ◌/◌, ◌≤◌, ◌<◌, ◌≡◌, ◌≢◌, ◌⊎◌, inl, inr,
  refl, Bool, true, false, not, ◌&&◌, Option, none, some, [], ◌∷◌, arith, ltb, ◌==◌, Bool-cases,
  All,
}
use trader_joe.Base.Raised.{overflow, Raised, ok, raise, value_error, type_error}
use trader_joe.Errors.Codes.{StatusCode, deadline_exceeded, internal, unavailable}
use trader_joe.Errors.{
  Reason, invalid_request, unsupported_asset_type, unsupported_instrument, feed_not_available,
  vendor_invalid_request, range_in_future, vendor_rejected, not_found, owner_mismatch,
  override_required, own_overlap_conflict, range_collision, range_shrink, duplicate_bar_timestamp,
  database_integrity, rate_budget, vendor_rate_limited, vendor_unavailable, vendor_auth, deadline,
  peer_unavailable, peer_internal, peer_protocol_error, database_unavailable, database_conflict,
  Outcome, refused, not_ready, Branch, exogenous_error, invalid_request_error, Disposition,
  client_fix, ReasonSpec, reasons,
}
use trader_joe.Errors.Build.{
  DateTime, naive, aware, early, datetime_end, Text, Key, is_listed, is_derived, Value, Metadata,
  ErrorClass, branch_of, fits, TraderJoeError, checked_metadata, checked_reset_at, built,
  trader_joe_error, is_refused, check_spec, one_second, retry_after,
}

-- The codes that the transport means itself.
abbrev pub is_transport : StatusCode → Bool
is_transport unavailable = true
is_transport deadline_exceeded = true
is_transport internal = true
is_transport _ = false

abbrev pub IsSendable : Option StatusCode → Type 0
IsSendable none = Unit
IsSendable (some code) = is_transport code ≡ false

abbrev pub is_client_fix : Disposition → Bool
is_client_fix client_fix = true
is_client_fix _ = false

abbrev pub is_invalid_request : Branch → Bool
is_invalid_request invalid_request_error = true
is_invalid_request exogenous_error = false

-- What a row says in several columns agrees.
abbrev pub IsConsistent : ReasonSpec → Type 0
IsConsistent spec =
    (check_spec spec ≡ ok tt)
    × IsSendable spec.grpc_code
    × (is_client_fix spec.disposition ≡ is_invalid_request spec.branch)
    × ((is_client_fix spec.disposition && not (is_refused spec.outcome)) ≡ false)
    × (is_refused spec.outcome ≡ (ltb spec.http_status 500 && not (spec.http_status == 429)))

-- Every row of the table passes the checks of a row and sends no code that the transport means itself. An error is the
-- caller's to fix exactly when it is an InvalidRequestError, and it is then refused for good. A reason is refused for
-- good exactly when its HTTP status is a 4xx other than 429.
pub reasons-IsConsistent : (r : Reason) → IsConsistent (reasons r)
unfolding check_spec
reasons-IsConsistent invalid_request = (refl, refl, refl, refl, refl)
reasons-IsConsistent unsupported_asset_type = (refl, refl, refl, refl, refl)
reasons-IsConsistent unsupported_instrument = (refl, refl, refl, refl, refl)
reasons-IsConsistent feed_not_available = (refl, tt, refl, refl, refl)
reasons-IsConsistent vendor_invalid_request = (refl, refl, refl, refl, refl)
reasons-IsConsistent range_in_future = (refl, refl, refl, refl, refl)
reasons-IsConsistent vendor_rejected = (refl, refl, refl, refl, refl)
reasons-IsConsistent not_found = (refl, refl, refl, refl, refl)
reasons-IsConsistent owner_mismatch = (refl, refl, refl, refl, refl)
reasons-IsConsistent override_required = (refl, refl, refl, refl, refl)
reasons-IsConsistent own_overlap_conflict = (refl, refl, refl, refl, refl)
reasons-IsConsistent range_collision = (refl, refl, refl, refl, refl)
reasons-IsConsistent range_shrink = (refl, refl, refl, refl, refl)
reasons-IsConsistent duplicate_bar_timestamp = (refl, refl, refl, refl, refl)
reasons-IsConsistent database_integrity = (refl, tt, refl, refl, refl)
reasons-IsConsistent rate_budget = (refl, refl, refl, refl, refl)
reasons-IsConsistent vendor_rate_limited = (refl, refl, refl, refl, refl)
reasons-IsConsistent vendor_unavailable = (refl, refl, refl, refl, refl)
reasons-IsConsistent vendor_auth = (refl, refl, refl, refl, refl)
reasons-IsConsistent deadline = (refl, refl, refl, refl, refl)
reasons-IsConsistent peer_unavailable = (refl, tt, refl, refl, refl)
reasons-IsConsistent peer_internal = (refl, tt, refl, refl, refl)
reasons-IsConsistent peer_protocol_error = (refl, tt, refl, refl, refl)
reasons-IsConsistent database_unavailable = (refl, tt, refl, refl, refl)
reasons-IsConsistent database_conflict = (refl, tt, refl, refl, refl)

-- The delay names no instant before the reset time, and none that is a whole second or more after it.
abbrev pub IsWait : ℕ → ℕ → ℕ → Type 0
IsWait reset_at now seconds =
    (reset_at ≤ now + seconds * one_second)
    × ((seconds ≡ 0) ⊎ (now + (seconds - 1) * one_second < reset_at))

-- The delay of an error that clears at an instant is the least number of whole seconds after which it has been reached,
-- and is zero from that instant on.
pub retry_after-IsWait :
    (error : TraderJoeError) (now reset_at : ℕ)
    → error.reset_at ≡ some reset_at
    → (seconds : ℕ) × (retry_after error now ≡ some seconds) × IsWait reset_at now seconds
unfolding retry_after
retry_after-IsWait error now t h =
    let d = t - now + (one_second - 1) in (d / one_second, rw h refl, (omega arith, wait))
  where
    wait :
        ((t - now + (one_second - 1)) / one_second ≡ 0)
        ⊎ (now + ((t - now + (one_second - 1)) / one_second - 1) * one_second < t)
    wait = ground arith

-- The metadata that an error may be given.
abbrev pub IsGivable : Key × Value → Type 0
IsGivable e = (is_listed e.0 ≡ true) × (is_derived e.0 ≡ false)

-- The reset time that an error of a row may be given: an aware one for a reason that is not refused for good, and none
-- unless the row requires it.
abbrev pub IsTimely : ReasonSpec → Option DateTime → Type 0
IsTimely spec none = spec.requires_reset_at ≡ false
IsTimely spec (some (naive t)) = ⊥
IsTimely spec (some (aware t)) = spec.outcome ≡ not_ready
IsTimely spec (some (early by)) = spec.outcome ≡ not_ready

-- UTC can show the instant of an aware one.
abbrev pub IsShown : Option DateTime → Type 0
IsShown (some (aware t)) = t < datetime_end
IsShown (some (early by)) = ⊥
IsShown _ = Unit

abbrev pub instant_of : Option DateTime → Option ℕ
instant_of none = none
instant_of (some (naive t)) = none
instant_of (some (aware t)) = some t
instant_of (some (early by)) = none

pub checked_metadata-cases :
    (m : Metadata)
    → ((checked_metadata m ≡ ok m) × All IsGivable m)
      ⊎ ((checked_metadata m ≡ raise value_error) × (¬ (All IsGivable m)))
unfolding checked_metadata
checked_metadata-cases [] = inl (refl, tt)
checked_metadata-cases ((k, v) ∷ m) = elim (Bool-cases (is_listed k)) [
  | inr h ↦ inr (rw h refl, (λ g. absurd (unlisted_key h g.0.0)))
  | inl h ↦ elim (Bool-cases (is_derived k)) [
    | inl d ↦ inr (rw (h, d) refl, (λ g. absurd (unlisted_key g.0.1 d)))
    | inr d ↦ elim (checked_metadata-cases m) [
      | inl (e, g) ↦ inl (rw (h, d, e) refl, ((h, d), g))
      | inr (e, g) ↦ inr (rw (h, d, e) refl, (λ gs. g gs.1))
    ]
  ]
]
  where
    unlisted_key : {b : Bool} → b ≡ false → b ≡ true → ⊥
    unlisted_key f t = absurd (cc)

pub checked_reset_at-cases :
    (spec : ReasonSpec) (t : Option DateTime)
    → ((checked_reset_at spec t ≡ ok (instant_of t)) × (IsTimely spec t × IsShown t))
      ⊎ (((checked_reset_at spec t ≡ raise value_error) × (¬ (IsTimely spec t)))
          ⊎ ((checked_reset_at spec t ≡ raise overflow) × (IsTimely spec t × (¬ (IsShown t)))))
unfolding checked_reset_at
checked_reset_at-cases spec none = elim (Bool-cases spec.requires_reset_at) [
  | inl h ↦ inr (inl (rw h refl, (λ k. absurd (cc))))
  | inr h ↦ inl (rw h refl, (h, tt))
]
checked_reset_at-cases spec (some (naive t)) = inr (inl (refl, (λ k. k)))
checked_reset_at-cases spec (some (aware t)) = outcomes spec.outcome refl
  where
    outcomes :
        (o : Outcome)
        → spec.outcome ≡ o
        → ((checked_reset_at spec (some (aware t)) ≡ ok (some t))
            × ((spec.outcome ≡ not_ready) × (t < datetime_end)))
          ⊎ (((checked_reset_at spec (some (aware t)) ≡ raise value_error)
                × (¬ (spec.outcome ≡ not_ready)))
              ⊎ ((checked_reset_at spec (some (aware t)) ≡ raise overflow)
                  × ((spec.outcome ≡ not_ready) × (¬ (t < datetime_end)))))
    outcomes refused h = inr (inl (rw h refl, (λ k. absurd (cc))))
    outcomes not_ready h = elim (Bool-cases (leb datetime_end t)) [
      | inl l ↦
          inr (inr (rw (h, l) refl, (h, (λ k. absurd (omega (arith, k, leb→le datetime_end t l))))))
      | inr l ↦ inl (rw (h, l) refl, (h, leb-false→lt datetime_end t l))
    ]
checked_reset_at-cases spec (some (early by)) = before spec.outcome refl
  where
    before :
        (o : Outcome)
        → spec.outcome ≡ o
        → ((checked_reset_at spec (some (early by)) ≡ ok none) × ((spec.outcome ≡ not_ready) × ⊥))
          ⊎ (((checked_reset_at spec (some (early by)) ≡ raise value_error)
                × (¬ (spec.outcome ≡ not_ready)))
              ⊎ ((checked_reset_at spec (some (early by)) ≡ raise overflow)
                  × ((spec.outcome ≡ not_ready) × (¬ ⊥))))
    before refused h = inr (inl (rw h refl, (λ k. absurd (cc))))
    before not_ready h = inr (inr (rw h refl, (h, (λ k. k))))

-- What comes of a construction: the error as it was asked for, or the refusal and its cause.
abbrev pub Constructs :
    ErrorClass → Reason → Text → Metadata → Option DateTime → Raised TraderJoeError → Type 0
Constructs class reason detail m t (ok e) =
    (branch_of class ≡ some (reasons reason).branch)
    × All IsGivable m
    × IsTimely (reasons reason) t
    × IsShown t
    × (e ≡ record {
      class = class;
      reason = reason;
      detail = detail;
      metadata = m;
      reset_at = instant_of t;
    })
Constructs class reason detail m t (raise type_error) =
    branch_of class ≢ some (reasons reason).branch
Constructs class reason detail m t (raise value_error) =
    (branch_of class ≡ some (reasons reason).branch)
    × (¬ (All IsGivable m × IsTimely (reasons reason) t))
Constructs class reason detail m t (raise overflow) =
    (branch_of class ≡ some (reasons reason).branch)
    × All IsGivable m
    × IsTimely (reasons reason) t
    × (¬ (IsShown t))
Constructs class reason detail m t (raise _) = ⊥

fits-cases :
    (b : Option Branch) (c : Branch)
    → ((fits b c ≡ true) × (b ≡ some c)) ⊎ ((fits b c ≡ false) × (b ≢ some c))
fits-cases none c = inr (refl, (λ h. absurd (cc)))
fits-cases (some exogenous_error) exogenous_error = inl (refl, refl)
fits-cases (some exogenous_error) invalid_request_error = inr (refl, (λ h. absurd (cc)))
fits-cases (some invalid_request_error) exogenous_error = inr (refl, (λ h. absurd (cc)))
fits-cases (some invalid_request_error) invalid_request_error = inl (refl, refl)

-- An error is built exactly when its class is of the reason's branch, every metadata key is on the list and is not one
-- that comes from the reset time, and the reset time is aware, at an instant that UTC can show, and not given for a
-- reason that is refused for good, or is absent where the row does not require one. It then holds what it was given. With
-- a class of the other branch, or the base, TypeError is raised; if UTC's range is all that is wrong, OverflowError; and
-- else ValueError.
pub trader_joe_error-Constructs :
    (class : ErrorClass) (reason : Reason) (detail : Text) (m : Metadata) (t : Option DateTime)
    → Constructs class reason detail m t (trader_joe_error class reason detail m t)
unfolding trader_joe_error built
trader_joe_error-Constructs class reason detail m t =
    elim (fits-cases (branch_of class) (reasons reason).branch) [
      | inr (h, b) ↦ rw h b
      | inl (h, b) ↦ elim (checked_metadata-cases m) [
        | inr (e, g) ↦ rw (h, e) (b, (λ both. g both.0))
        | inl (e, g) ↦ elim (checked_reset_at-cases (reasons reason) t) [
          | inr (inl (f, k)) ↦ rw (h, e, f) (b, (λ both. k both.1))
          | inr (inr (f, (k, u))) ↦ rw (h, e, f) (b, g, k, u)
          | inl (f, (k, u)) ↦ rw (h, e, f) (b, g, k, u, refl)
        ]
      ]
    ]
