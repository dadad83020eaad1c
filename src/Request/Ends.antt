-- ===== src/Request/Ends.antt =====
-- vanity/request/request_handler.cpp: a request that is dispatched as the last one ends its message.
use vanity.Base.{ℕ, ◌≤◌, ◌≡◌, ◌≢◌, refl, true, length, arith}
use vanity.Std.Text.{Text}
use vanity.Request.Extractable.{
  Parsed, parsed, invalid, failed, undefined, Extract, Platform, resume, give, ensure_end_if,
  ensure_end, skip_whitespace, end,
}
use vanity.Request.Operation.{Operation}
use vanity.Request.Call.{Call}
use vanity.Request.Exact.{exact, request}
use vanity.Request.Bounds.{Uses}
use vanity.Request.DispatchBounds.{dispatch_op-IsSafe}
use vanity.Request.Dispatch.Server.{dispatch_server}
use vanity.Request.Dispatch.Keys.{dispatch_keys}
use vanity.Request.Dispatch.Lists.{dispatch_lists}
use vanity.Request.Dispatch.Sets.{dispatch_sets}
use vanity.Request.Dispatch.Hashes.{dispatch_hashes}
use vanity.Request.Dispatch.Cluster.{dispatch_cluster}
use vanity.Request.Dispatch.{dispatch_op}

-- What is extracted leaves nothing of the message.
abbrev Finishes : {A : Type 0} → Text → Parsed A → Type 0
Finishes msg (parsed a p) = length msg ≤ p
Finishes msg _ = Unit

resume-Finishes :
    {A B : Type 0} (msg : Text) (r : Parsed A) (f : A → Extract B)
    → ((a : A) (p : ℕ) → Finishes msg (f a p))
    → Finishes msg (resume r f)
resume-Finishes msg (parsed a p) f h = h a p
resume-Finishes msg (invalid e p) f h = tt
resume-Finishes msg (failed p) f h = tt
resume-Finishes msg undefined f h = tt

end-Finishes :
    {A : Type 0} (msg : Text) (a : A) (p : ℕ)
    → Finishes msg (resume (ensure_end_if msg true p) (λ u. give a))
unfolding ensure_end_if ensure_end skip_whitespace end
end-Finishes msg a p = ground arith

give-Finishes :
    {A B : Type 0} (msg : Text) (r : Parsed A) (f : A → B)
    → Finishes msg r
    → Finishes msg (resume r (λ a. give (f a)))
give-Finishes msg (parsed a p) f h = h
give-Finishes msg (invalid e p) f h = tt
give-Finishes msg (failed p) f h = tt
give-Finishes msg undefined f h = tt

request-Finishes :
    {A : Type 0} (msg : Text) (m : Extract A) (f : A → Call) (p : ℕ)
    → Finishes msg (request msg m true f p)
request-Finishes msg m f p =
    give-Finishes msg (exact msg m true p) f (resume-Finishes msg (m p) _ (end-Finishes msg))

dispatch_op-Finishes :
    (msg : Text) (platform : Platform) (op : Operation) (p : ℕ)
    → op ≢ Operation.pipe
    → Finishes msg (dispatch_op msg platform op true p)
unfolding dispatch_op dispatch_server dispatch_keys dispatch_lists dispatch_sets dispatch_hashes
    dispatch_cluster
dispatch_op-Finishes msg platform Operation.pipe p h = absurd (h refl)
dispatch_op-Finishes msg platform _ p h = search (request-Finishes)

-- Given that strtod uses no more bytes than there are: a request other than PIPE that dispatch
-- extracts as the last one, from a position in the message, ends exactly where the message does.
pub dispatch_op-ends :
    (msg : Text) (platform : Platform)
    → ((t : Text) → Uses (length t) (platform.strtod t))
    → (op : Operation) (p q : ℕ) (c : Call) → op ≢ Operation.pipe
    → p ≤ length msg
    → dispatch_op msg platform op true p ≡ parsed c q
    → q ≡ length msg
dispatch_op-ends msg platform uses op p q c hop hp e =
    let within = dispatch_op-IsSafe msg platform uses op true p hp in
    let finishes = dispatch_op-Finishes msg platform op p hop in ground (arith)
