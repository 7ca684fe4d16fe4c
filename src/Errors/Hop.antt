-- ===== src/Errors/Hop.antt =====
-- An error from the servicer that raises it to the caller that rebuilds it.
use trader_joe.Base.{
  ℕ, ◌<◌, ◌≡◌, inl, inr, refl, subst, ◌∙◌, false, Option, none, some, List, [], ◌∷◌, Bool-cases,
}
use trader_joe.Base.Raised.{ok}
use trader_joe.Errors.Codes.{
  StatusCode, cancelled, unknown, invalid_argument, deadline_exceeded, not_found, already_exists,
  permission_denied, resource_exhausted, failed_precondition, aborted, out_of_range, unimplemented,
  internal, unavailable, data_loss, unauthenticated,
}
use trader_joe.Errors.{Reason, reasons}
use trader_joe.Errors.Build.{
  aware, datetime_end, Text, Key, reset_at_key, Metadata, lookup, is_empty, branch_class,
  TraderJoeError, retry_after, remaining_seconds, trader_joe_error, own_error_id, Chain,
}
use trader_joe.Errors.Rpc.{
  Duration, Runtime, member, ErrorInfo, error_domain, error_info, Status, Reply, AioRpcError, wired,
  id_or, with_id, with_reset, retry_detail, is_unavailable, wire_metadata, render_as, render,
  settled_id, line_of, reply_of, abort_with_error, abort_typed, typed, abort_for,
}
use trader_joe.Errors.Received.{
  rich_status, unpacked_retry, kept, rebuilt_retry, rebuilt, of_member, of_info, of_status, of_code,
  from_rpc_error,
}
use trader_joe.Errors.Rules.{is_transport, IsSendable, IsTimely, IsShown, reasons-IsConsistent}
use trader_joe.Errors.Given.{
  at, IsBuilt, branch_class-ok, HasKeys, texts, with_id-HasKeys, texts-IsGivable, kept_all,
  kept-put, lookup_reset, lookup-put,
}

-- What the code relies on in the datetime module: a written instant reads as itself, if UTC can show it, and is some text.
pub record RuntimeLaws (r : Runtime) : Type 0 where
  pub written : (t : ℕ) → is_empty (r.isoformat t) ≡ false
  pub read : (t : ℕ) → t < datetime_end → r.fromisoformat (r.isoformat t) ≡ ok (aware t)

-- What the code relies on in gRPC: the caller gets the code, the message and the rich status that were sent.
pub record Delivers (received : Reply → AioRpcError) : Type 0 where
  pub code : (reply : Reply) → (received reply).code ≡ some reply.code
  pub details : (reply : Reply) → (received reply).details ≡ some reply.details
  pub status :
      (reply : Reply)
      → rich_status (received reply).trailing_metadata ≡ rich_status (some reply.trailing_metadata)

-- The metadata that goes over, without the reset time: each value as one text, and an id.
abbrev pub sent_metadata : TraderJoeError → Text → List (Key × Text)
sent_metadata e fresh = with_id (own_error_id e) fresh (wired e.metadata)

-- The error on the other side of the hop: of the reason's branch, with its values as texts and an id.
abbrev pub relayed : TraderJoeError → Text → TraderJoeError
relayed e fresh = record {
  class = branch_class (reasons e.reason).branch;
  reason = e.reason;
  detail = e.detail;
  metadata = texts (sent_metadata e fresh);
  reset_at = e.reset_at;
}

chosen_id :
    (own : Option Text) (fresh : Text) (m : List (Key × Text))
    → with_id own (id_or (some (settled_id own fresh)) fresh) m ≡ with_id own fresh m
chosen_id none fresh m = elim (Bool-cases (is_empty fresh)) [
  | inl h ↦ rw h refl
  | inr h ↦ rw h refl
]
chosen_id (some own) fresh m = refl

not_unavailable : (code : StatusCode) → is_transport code ≡ false → is_unavailable code ≡ false
not_unavailable cancelled h = refl
not_unavailable unknown h = refl
not_unavailable invalid_argument h = refl
not_unavailable deadline_exceeded h = refl
not_unavailable not_found h = refl
not_unavailable already_exists h = refl
not_unavailable permission_denied h = refl
not_unavailable resource_exhausted h = refl
not_unavailable failed_precondition h = refl
not_unavailable aborted h = refl
not_unavailable out_of_range h = refl
not_unavailable unimplemented h = refl
not_unavailable internal h = refl
not_unavailable unavailable h = absurd (cc)
not_unavailable data_loss h = refl
not_unavailable unauthenticated h = refl

-- A code that is not the transport's leads to the status.
of_code-of_status :
    (r : Runtime) (code : StatusCode) (detail : Text) (now : ℕ) (status : Option Status)
    → is_transport code ≡ false
    → of_code r (some code) detail now status ≡ of_status r (some code) detail now status
unfolding of_code
of_code-of_status r cancelled detail now status h = refl
of_code-of_status r unknown detail now status h = refl
of_code-of_status r invalid_argument detail now status h = refl
of_code-of_status r deadline_exceeded detail now status h = absurd (cc)
of_code-of_status r not_found detail now status h = refl
of_code-of_status r already_exists detail now status h = refl
of_code-of_status r permission_denied detail now status h = refl
of_code-of_status r resource_exhausted detail now status h = refl
of_code-of_status r failed_precondition detail now status h = refl
of_code-of_status r aborted detail now status h = refl
of_code-of_status r out_of_range detail now status h = refl
of_code-of_status r unimplemented detail now status h = refl
of_code-of_status r internal detail now status h = absurd (cc)
of_code-of_status r unavailable detail now status h = absurd (cc)
of_code-of_status r data_loss detail now status h = refl
of_code-of_status r unauthenticated detail now status h = refl

-- The reset time comes back from the metadata.
reset_back :
    (r : Runtime) (laws : RuntimeLaws r) (reason : Reason) (detail : Text) (m : Metadata)
    (now t : ℕ) (retry : Option (Option Duration)) (written : Text)
    → t < datetime_end
    → r.isoformat t ≡ written
    → rebuilt r reason detail m now (some written) retry
      ≡ trader_joe_error (branch_class (reasons reason).branch) reason detail m (some (aware t))
unfolding rebuilt
reset_back r laws reason detail m now t retry [] shown h =
    let is : is_empty (r.isoformat t) ≡ false = laws.written t in absurd (cc (rw h at is))
reset_back r laws reason detail m now t retry (c ∷ cs) shown h =
    let reads : r.fromisoformat (c ∷ cs) ≡ ok (aware t) =
      subst (λ (w : Text). r.fromisoformat w ≡ ok (aware t)) h (laws.read t shown) in
    rw reads refl

module _ (r : Runtime) (laws : RuntimeLaws r) (reason : Reason) (detail : Text)
    (sent : List (Key × Text)) (keys : HasKeys sent) where
  rebuilt_same : Option ℕ → TraderJoeError
  rebuilt_same reset_at = record {
    class = branch_class (reasons reason).branch;
    reason = reason;
    detail = detail;
    metadata = texts sent;
    reset_at = reset_at;
  }

  -- From the metadata as it was written, whatever the delay in the RetryInfo.
  rebuilt_sent :
      (reset_at : Option ℕ) (now later : ℕ)
      → IsTimely (reasons reason) (at reset_at)
      → IsShown (at reset_at)
      → let m = with_reset r reset_at sent in
        rebuilt r reason detail
          (kept m)
          later
          (lookup reset_at_key m)
          (unpacked_retry (retry_detail (remaining_seconds reset_at now)))
        ≡ ok (rebuilt_same reset_at)
  unfolding rebuilt rebuilt_retry rebuilt_same
  rebuilt_sent none now later timely shown =
      rw (lookup_reset sent keys, kept_all sent keys)
        (branch_class-ok reason detail (texts sent) none (texts-IsGivable sent keys) timely shown)
  rebuilt_sent (some t) now later timely shown =
      rw (lookup-put reset_at_key (r.isoformat t) sent, kept-put (r.isoformat t) sent keys)
        (reset_back r laws reason detail (texts sent) later t _ (r.isoformat t) shown refl
          ∙ branch_class-ok reason detail (texts sent) (some (aware t)) (texts-IsGivable sent keys)
              timely shown)

-- The status that an error goes out as, under a code.
abbrev sent_status : Runtime → TraderJoeError → Text → ℕ → StatusCode → Status
sent_status r e fresh now code =
    let info : ErrorInfo = record {
      reason = member e.reason;
      domain = error_domain;
      metadata = with_reset r e.reset_at (sent_metadata e fresh);
    } in
    record {
      code = code;
      message = e.detail;
      details = error_info (some info) ∷ retry_detail (remaining_seconds e.reset_at now);
    }

abort_for-sent :
    (r : Runtime) (e : TraderJoeError) (chain : Chain) (fresh : Text) (now : ℕ) (code : StatusCode)
    → (reasons e.reason).grpc_code ≡ some code
    → is_unavailable code ≡ false
    → abort_for r (typed e chain) fresh now
      ≡ ok (reply_of (sent_status r e fresh now code), line_of e chain fresh)
unfolding abort_for abort_typed abort_with_error render render_as wire_metadata retry_after
abort_for-sent r e chain fresh now code h k =
    rw (h, h, k, chosen_id (own_error_id e) fresh (wired e.metadata)) refl

of_status-sent :
    (r : Runtime) (laws : RuntimeLaws r) (e : TraderJoeError) (built : IsBuilt e) (fresh : Text)
    (now later : ℕ) (code : StatusCode)
    → of_status r (some code) e.detail later (some (sent_status r e fresh now code))
      ≡ ok (relayed e fresh)
unfolding of_status of_info of_member rebuilt_same
of_status-sent r laws e built fresh now later code =
    rw
      (rebuilt_sent r laws e.reason e.detail (sent_metadata e fresh)
        (with_id-HasKeys (own_error_id e) fresh e.metadata built.givable) e.reset_at now later
        built.timely built.shown)
      refl

-- If gRPC hands the caller the code, the message and the rich status that were sent, and a written instant that UTC can
-- show reads as itself, then an error that the constructor built, whose reason has a status, is answered by the boundary and rebuilt by
-- the caller with its reason, its detail, its reset time and its metadata, on the reason's branch: each value as one text,
-- and with an error id, its own or the one minted. The log line is the one of that error, its chain and that id.
pub from_rpc_error-abort_for :
    (r : Runtime) (laws : RuntimeLaws r) (received : Reply → AioRpcError)
    (delivers : Delivers received) (e : TraderJoeError) (built : IsBuilt e) (chain : Chain)
    (fresh : Text) (now later : ℕ) (code : StatusCode)
    → (reasons e.reason).grpc_code ≡ some code
    → (reply : Reply) × (abort_for r (typed e chain) fresh now ≡ ok (reply, line_of e chain fresh))
      × (from_rpc_error r (received reply) later ≡ ok (relayed e fresh))
unfolding from_rpc_error
from_rpc_error-abort_for r laws received delivers e built chain fresh now later code h =
    (reply, abort_for-sent r e chain fresh now code h (not_unavailable code plain), back)
  where
    plain : is_transport code ≡ false
    plain = subst IsSendable h (reasons-IsConsistent e.reason).1

    reply : Reply
    reply = reply_of (sent_status r e fresh now code)

    back : from_rpc_error r (received reply) later ≡ ok (relayed e fresh)
    back =
        rw (delivers.code reply, delivers.details reply, delivers.status reply)
          (of_code-of_status r code e.detail later (some (sent_status r e fresh now code)) plain
            ∙ of_status-sent r laws e built fresh now later code)
