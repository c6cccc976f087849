-- ===== src/Runtime.antt =====
-- crates/themql-runtime/src/lib.rs: the errors of the runtime, what `TokioRuntime` makes of the outcomes
-- of tokio, and the token of a cancellation. Outcomes of tokio are arguments, and its `Notify` is a
-- parameter.
use the_mql.Base.{
  ℕ, zero, suc, ◌+◌, Bool, true, false, if◌then◌else◌, List, [], ◌∷◌, ◌++◌, Result, ok, err,
}
use the_mql.Base.Text.{Text, codes}
pub mod Wakeup
mod Tests

pub record JoinError : Type 0 where
  pub reason : Text

pub data Elapsed : Type 0 where
  elapsed : Elapsed

pub data RuntimeError : Type 0 where
  join : JoinError → RuntimeError
  timed_out : Elapsed → RuntimeError
  backend : Text → RuntimeError

unfoldable pub join_error_text : JoinError → Text
join_error_text e = codes "join error: " ++ e.reason

unfoldable pub elapsed_text : Elapsed → Text
elapsed_text elapsed = codes "operation timed out"

-- The `#[error("…")]` texts.
unfoldable pub runtime_error_text : RuntimeError → Text
unfolding join_error_text
runtime_error_text (join e) = codes "join error: " ++ join_error_text e
runtime_error_text (timed_out e) = codes "timeout elapsed"
runtime_error_text (backend reason) = codes "backend error: " ++ reason

-- `spawn`: what its future returns, of the outcome of the task and the text of its error.
unfoldable pub spawned : {T E : Type 0} → (E → Text) → Result E T → Result JoinError T
spawned to_string (ok value) = ok value
spawned to_string (err e) = err (record { reason = to_string e })

-- `timeout`
unfoldable pub timeout : {T E : Type 0} → Result E T → Result Elapsed T
timeout (ok value) = ok value
timeout (err e) = err elapsed

-- `Sender::send`
unfoldable pub send : {T E : Type 0} → Result E T → Result RuntimeError T
send (ok value) = ok value
send (err e) = err (backend (codes "receiver dropped"))

-- `tokio::sync::Notify`: a future of `notified`, and whether it is ready.
pub record Notify (N Ticket : Type 0) : Type 0 where
  pub fresh : N
  pub notified : N → Ticket
  pub notify_waiters : N → N
  pub is_ready : N → Ticket → Bool

pub record CancellationToken (N : Type 0) : Type 0 where
  pub notify : N
  pub cancelled : Bool

-- Where a call of `cancelled` stands: before its first test, at the head of the loop, with a future
-- and before the second test, in `notified.await`, before the third test, and after it returned.
pub data Waiter (Ticket : Type 0) : Type 0 where
  entered looping woken returned : Waiter Ticket
  holding awaiting : Ticket → Waiter Ticket

-- A token, the calls of `cancel` between their two statements, and a call of `cancelled`.
pub record System (N Ticket : Type 0) : Type 0 where
  pub token : CancellationToken N
  pub pending : ℕ
  pub waiter : Waiter Ticket

-- What threads do next: a call of `cancel` stores the flag, such a call notifies, or the waiter takes
-- a step.
pub data Action : Type 0 where
  store notify turn : Action

module _ {N Ticket : Type 0} (tokio : Notify N Ticket) where
  -- `CancellationToken::new`
  unfoldable pub new_token : CancellationToken N
  new_token = record { notify = tokio.fresh; cancelled = false }

  -- The two statements of `CancellationToken::cancel`.
  unfoldable pub store_flag : CancellationToken N → CancellationToken N
  store_flag token = record token { cancelled = true }

  unfoldable pub notify_all : CancellationToken N → CancellationToken N
  notify_all token = record token { notify = tokio.notify_waiters token.notify }

  -- A step of `CancellationToken::cancelled`.
  unfoldable pub advance : CancellationToken N → Waiter Ticket → Waiter Ticket
  advance token entered = if token.cancelled then returned else looping
  advance token looping = holding (tokio.notified token.notify)
  advance token (holding t) = if token.cancelled then returned else awaiting t
  advance token (awaiting t) = if tokio.is_ready token.notify t then woken else awaiting t
  advance token woken = if token.cancelled then returned else looping
  advance token returned = returned

  -- One of the pending calls notifies, if there is one.
  unfoldable pub notify_pending : ℕ → System N Ticket → System N Ticket
  unfolding notify_all
  notify_pending zero s = s
  notify_pending (suc n) s = record s { token = notify_all s.token; pending = n }

  unfoldable pub act : Action → System N Ticket → System N Ticket
  unfolding store_flag notify_pending advance
  act store s = record s { token = store_flag s.token; pending = s.pending + 1 }
  act notify s = notify_pending s.pending s
  act turn s = record s { waiter = advance s.token s.waiter }

  unfoldable pub run : List Action → System N Ticket → System N Ticket
  unfolding act
  run [] s = s
  run (a ∷ actions) s = run actions (act a s)

  -- A new token, with a call of `cancelled`.
  unfoldable pub start : System N Ticket
  unfolding new_token
  start = record { token = new_token; pending = 0; waiter = entered }
