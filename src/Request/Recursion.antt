-- ===== src/Request/Recursion.antt =====
-- vanity/pipe_server.cpp and vanity/request/request_server.cpp: a pipe whose first request leads the
-- position back to the pipe.
use vanity.Base.{ℕ, zero, suc, ◌≡◌, refl, Bool, true, false, List}
use vanity.Std.Text.{Text}
use vanity.Request.Extractable.{parsed, Platform}
use vanity.Request.Objects.{get_len}
use vanity.Request.Operation.{Operation, peek_operation}
use vanity.Request.Call.{Call}
use vanity.Request.Dispatch.{dispatch}
use vanity.Request.Serving.{
  invalid_request, std_exception, other_exception, Outcome, returned, thrown, Handlers, Served,
  served, too_deep, caught, ended, run_call, dispatch_or_refuse, do_handle_single, do_handle,
  aggregated, request_pipe,
}

-- Serving ends at a position, with whatever state and responses.
abbrev ServedAt : {S : Type 0} → ℕ → Served S → Type 0
ServedAt {S = S} p r = (s : S) × (rs : List Text) × (r ≡ served s p rs)

caught-ended : {S : Type 0} (o : Outcome S) (p : ℕ) → ServedAt p (caught (ended o p))
unfolding caught
caught-ended (returned s rs) p = (s, rs, refl)
caught-ended (thrown (invalid_request e) s rs) p = (s, _, refl)
caught-ended (thrown (std_exception e) s rs) p = (s, _, refl)
caught-ended (thrown other_exception s rs) p = (s, _, refl)

module _ {S : Type 0} (handlers : Handlers S) (msg : Text) (platform : Platform)
    (permitted : (s : S) → handlers.has_perm s Operation.pipe ≡ true)
    (permitted_first : (s : S) → handlers.has_perm s Operation.get ≡ true)
    (start inside first n : ℕ) (peek_start : peek_operation msg start ≡ parsed Operation.pipe start)
    (dispatch_start : (end : Bool) → dispatch msg platform end start ≡ parsed Call.pipe inside)
    (len : get_len msg inside ≡ parsed (suc (suc n)) first)
    (peek_first : peek_operation msg first ≡ parsed Operation.get first) (key : Text)
    (dispatch_first : dispatch msg platform false first ≡ parsed (Call.get key) start) where
  single_back :
      (pipe : S → ℕ → Served S) (s : S)
      → ServedAt start (do_handle_single handlers msg platform pipe true false s first)
  unfolding do_handle_single dispatch_or_refuse run_call
  single_back pipe s =
      rw (peek_first, permitted_first s, dispatch_first)
        (caught-ended (handlers.call (Call.get key) s) start)

  single_deep :
      (pipe : S → ℕ → Served S) (end : Bool) (s : S)
      → ((t : S) → pipe t inside ≡ too_deep)
      → do_handle_single handlers msg platform pipe true end s start ≡ too_deep
  unfolding do_handle_single dispatch_or_refuse run_call caught
  single_deep pipe end s deep = rw (peek_start, permitted s, dispatch_start end, deep s) refl

  rest_deep :
      (pipe : S → ℕ → Served S) (m : ℕ) (s : S)
      → ((t : S) → pipe t inside ≡ too_deep)
      → do_handle handlers msg platform pipe true (suc m) s start ≡ too_deep
  unfolding do_handle
  rest_deep pipe zero s deep = single_deep pipe true s deep
  rest_deep pipe (suc m) s deep = rw (single_deep pipe false s deep) refl

  -- Given that PIPE and GET are permitted: where a message holds PIPE, with a length of at least two
  -- and a GET as the first request, and the key of the GET leads the position back to that PIPE, the
  -- pipes go on within each other without an end, so that no fuel is enough.
  pub request_pipe-too_deep :
      (fuel : ℕ) (s : S) → request_pipe handlers msg platform fuel s inside ≡ too_deep
  unfolding request_pipe do_handle aggregated
  request_pipe-too_deep zero s = refl
  request_pipe-too_deep (suc fuel) s =
      let pipe = request_pipe handlers msg platform fuel in
      let back = single_back pipe s in
      rw (len, back.2, rest_deep pipe n back.0 (request_pipe-too_deep fuel)) refl
