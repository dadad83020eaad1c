-- ===== src/Request/Answers.antt =====
-- vanity/request/request_server.cpp and vanity/pipe_server.cpp: how many responses a message gets.
use vanity.Base.{ℕ, zero, suc, ◌≤◌, ◌≡◌, Bool, true, false, not, ◌&&◌, length}
use vanity.Std.Text.{Text}
use vanity.Request.Extractable.{Parsed, parsed, Platform, resume}
use vanity.Request.Operation.{peek_operation}
use vanity.Request.Call.{Call}
use vanity.Request.Dispatch.{dispatch}
use vanity.Request.Serving.{
  Outcome, returned, thrown, Handlers, Served, served, raised, do_handle_single,
}

abbrev is_pipe : Call → Bool
is_pipe Call.pipe = true
is_pipe _ = false

abbrev calls_pipe : Parsed Call → Bool
calls_pipe (parsed c p) = is_pipe c
calls_pipe _ = false

-- The request at a position is PIPE.
unfoldable pub asks_pipe : Text → Platform → Bool → ℕ → Bool
asks_pipe msg platform end p =
    calls_pipe (resume (peek_operation msg p) (λ op q. dispatch msg platform end q))

abbrev goes_on : {S : Type 0} → Served S → (S → ℕ → Bool) → Bool
goes_on (served s p rs) f = f s p
goes_on _ f = true

-- None of the n requests of a pipe from a position, as they are served one after the other, is PIPE.
unfoldable pub has_no_pipe :
    {S : Type 0} → Handlers S → Text → Platform → (S → ℕ → Served S) → ℕ → S → ℕ → Bool
has_no_pipe handlers msg platform pipe zero s p = true
has_no_pipe handlers msg platform pipe (suc zero) s p = not (asks_pipe msg platform true p)
has_no_pipe handlers msg platform pipe (suc (suc n)) s p =
    not (asks_pipe msg platform false p)
    && goes_on (do_handle_single handlers msg platform pipe true false s p)
        (λ s1 q. has_no_pipe handlers msg platform pipe (suc n) s1 q)

-- exit and terminate close the client or the server, and send nothing.
abbrev pub is_closing : Call → Bool
is_closing Call.exit = true
is_closing Call.terminate = true
is_closing _ = false

-- A method sends one response, or throws before it has sent one.
abbrev pub AnswersOnce : {S : Type 0} → Outcome S → Type 0
AnswersOnce (returned s rs) = length rs ≡ 1
AnswersOnce (thrown e s rs) = length rs ≡ 0

-- What has been served was answered n times, and the position is in the message.
abbrev pub Answered : {S : Type 0} → Text → ℕ → Served S → Type 0
Answered msg n (served s p rs) = (length rs ≡ n) × (p ≤ length msg)
Answered msg n _ = ⊥

-- The same before exceptions are caught, which are the answer then.
abbrev Pending : {S : Type 0} → Text → Served S → Type 0
Pending msg (served s p rs) = (length rs ≡ 1) × (p ≤ length msg)
Pending msg (raised e s p rs) = (length rs ≡ 0) × (p ≤ length msg)
Pending msg _ = ⊥
