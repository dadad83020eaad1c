-- ===== src/Request/Serving.antt =====
-- vanity/request/request_server.cpp and vanity/pipe_server.cpp: how the requests of a message are
-- served, one or, in a pipe, many.
use vanity.Base.{ℕ, zero, suc, Bool, true, false, List, [], ◌∷◌, ◌++◌, if◌then◌else◌}
use vanity.Std.Text.{Text, codes}
use vanity.Request.Extractable.{Parsed, parsed, invalid, failed, undefined, Platform, ensure_end_if}
use vanity.Request.Objects.{get_len}
use vanity.Request.Operation.{Operation, peek_operation}
use vanity.Request.Call.{Call}
use vanity.Request.Dispatch.{dispatch, dry_dispatch}
use vanity.Response.{Status, error_response, empty_response, aggregate, append_all}

-- What do_handle_single catches.
pub data Exception : Type 0 where
  invalid_request std_exception : Text → Exception
  other_exception : Exception

-- How a method request_... ends: it returns or throws, after it has sent responses.
pub data Outcome (S : Type 0) : Type 0 where
  returned : S → List Text → Outcome S
  thrown : Exception → S → List Text → Outcome S

-- The server that the requests go to, with its sessions as the state S: Client::has_perm, the methods
-- of RequestHandler, and the text of the exception for a vector that is too long.
pub record Handlers (S : Type 0) : Type 0 where
  pub has_perm : S → Operation → Bool
  pub call : Call → S → Outcome S
  pub length_error : Text

-- How serving ends: with a state, a position and responses, with an exception, with a read behind the
-- end of the message, or in a recursion that is deeper than the fuel.
pub data Served (S : Type 0) : Type 0 where
  served : S → ℕ → List Text → Served S
  raised : Exception → S → ℕ → List Text → Served S
  undefined_read too_deep : Served S

module _ {S : Type 0} where
  -- What goes on after responses that were sent.
  abbrev pub after : List Text → Served S → Served S
  after sent (served s p rs) = served s p (sent ++ rs)
  after sent (raised e s p rs) = raised e s p (sent ++ rs)
  after sent undefined_read = undefined_read
  after sent too_deep = too_deep

  abbrev pub and_then : Served S → (S → ℕ → Served S) → Served S
  and_then (served s p rs) f = after rs (f s p)
  and_then (raised e s p rs) f = raised e s p rs
  and_then undefined_read f = undefined_read
  and_then too_deep f = too_deep

  -- do_handle_single, its exception handlers
  unfoldable pub caught : Served S → Served S
  caught (raised (invalid_request e) s p rs) =
      served s p (rs ++ error_response Status.bad_request (codes "InvalidRequest: " ++ e) ∷ [])
  caught (raised (std_exception e) s p rs) =
      served s p (rs ++ error_response Status.internal_error e ∷ [])
  caught (raised other_exception s p rs) =
      served s p (rs ++ error_response Status.internal_error (codes "unknown error") ∷ [])
  caught r = r

  -- PipedClient::write and perform_write
  unfoldable pub aggregated : ℕ → Served S → Served S
  aggregated len (served s p rs) = served s p (append_all (aggregate len) rs ∷ [])
  aggregated len r = r

  abbrev pub not_in_pipe : Text → S → ℕ → Served S
  not_in_pipe e s p = served s p (error_response Status.error e ∷ [])

  abbrev pub ended : Outcome S → ℕ → Served S
  ended (returned s rs) p = served s p rs
  ended (thrown e s rs) p = raised e s p rs

module _ {S : Type 0} (handlers : Handlers S) (msg : Text) (platform : Platform) where
  -- What goes on with a value that is extracted.
  abbrev pub extracted : {A : Type 0} → S → Parsed A → (A → ℕ → Served S) → Served S
  extracted s (parsed a p) f = f a p
  extracted s (invalid e p) f = raised (invalid_request e) s p []
  extracted s (failed p) f = raised (std_exception handlers.length_error) s p []
  extracted s undefined f = undefined_read

  -- The requests of a message, given how a pipe is served, to a client that is a pipe or not.
  module _ (pipe : S → ℕ → Served S) (piped : Bool) where
    -- The method that is called. A pipe is served first, and then the end of the message is checked.
    unfoldable pub run_call : Bool → Call → S → ℕ → Served S
    run_call end Call.pipe s p =
        and_then (pipe s p) (λ s1 q. extracted s1 (ensure_end_if msg end q) (λ u r. served s1 r []))
    run_call end Call.exit s p =
        if piped
        then not_in_pipe (codes "EXIT command not allowed in PIPE request") s p
        else ended (handlers.call Call.exit s) p
    run_call end Call.terminate s p =
        if piped
        then not_in_pipe (codes "TERMINATE command not allowed in PIPE request") s p
        else ended (handlers.call Call.terminate s) p
    run_call end c s p = ended (handlers.call c s) p

    unfoldable pub refuse_with_response : Text → Bool → S → ℕ → Served S
    refuse_with_response response end s p =
        if end
        then served s p (response ∷ [])
        else extracted s (dry_dispatch msg platform end p) (λ u q. served s q (response ∷ []))

    unfoldable pub dispatch_or_refuse : Bool → S → ℕ → Served S
    dispatch_or_refuse end s p = extracted s (peek_operation msg p) (λ op q.
        if handlers.has_perm s op
        then extracted s (dispatch msg platform end q) (λ c r. run_call end c s r)
        else refuse_with_response (empty_response Status.denied) end s q)

    unfoldable pub do_handle_single : Bool → S → ℕ → Served S
    do_handle_single end s p = caught (dispatch_or_refuse end s p)

    unfoldable pub do_handle : ℕ → S → ℕ → Served S
    do_handle zero s p = served s p []
    do_handle (suc zero) s p = do_handle_single true s p
    do_handle (suc (suc n)) s p =
        and_then (do_handle_single false s p) (λ s1 q. do_handle (suc n) s1 q)

  -- request_pipe, on fuel for the pipes in a pipe
  unfoldable pub request_pipe : ℕ → S → ℕ → Served S
  request_pipe zero s p = too_deep
  request_pipe (suc fuel) s p =
      extracted s (get_len msg p)
        (λ len q. aggregated len (do_handle (request_pipe fuel) true len s q))

  unfoldable pub handle_user : ℕ → S → Served S
  handle_user fuel s = do_handle (request_pipe fuel) false 1 s 0
