-- ===== src/Diagnostics/Control/Raised.antt =====
-- What becomes of `performOperation` as the file reads its clock.
use backend_client.Base.{ℕ, ◌≡◌, refl, ap, ◌∙◌, List, [], ◌∷◌, nat_eq}
use backend_client.Base.Dict.{lookup}
use backend_client.Base.Exceptions.{ok, Result, attribute_error}
use backend_client.Diagnostics.{ControlMessage}
use backend_client.Diagnostics.Control.{SetDiagnostics, KnownSink}
use backend_client.Diagnostics.Control.Sending.{
  raised, Response, System, Event, respond, poll, abort_requested, step, steps, start,
  begin_operation, respond_to, on_response_queue_message, perform_operation,
}

-- The operation has raised, nothing more was sent, and no answer is waited for.
abbrev pub IsIdle : List ControlMessage → System → Type 0
IsIdle sent system =
    (system.operation ≡ raised attribute_error)
    × (system.object.sent ≡ sent)
    × (system.object.statuses ≡ [])

module _ (draw : ℕ → ℕ) where
  -- No answer is known.
  on_response_queue_message-none :
      (message : Response) (now : Result ℕ) (s : SetDiagnostics)
      → s.statuses ≡ []
      → on_response_queue_message draw message now s ≡ (ok tt, s)
  unfolding on_response_queue_message respond_to
  on_response_queue_message-none message now s empty =
      ap (λ o. respond_to draw message now o s) (ap (lookup message.req_id) empty)

  step-IsIdle :
      (sent : List ControlMessage) (event : Event) (system : System)
      → IsIdle sent system
      → IsIdle sent (step draw event system)
  unfolding step
  step-IsIdle sent (respond message now) system (over, same, empty) =
      let quiet = on_response_queue_message-none message now system.object empty in
      (over, ap (λ r. r.1.sent) quiet ∙ same, ap (λ r. r.1.statuses) quiet ∙ empty)
  step-IsIdle sent poll system (over, same, empty) = rw over (refl, same, empty)
  step-IsIdle sent abort_requested system h = h

  steps-IsIdle :
      (sent : List ControlMessage) (events : List Event) (system : System)
      → IsIdle sent system
      → IsIdle sent (steps draw events system)
  unfolding steps
  steps-IsIdle sent [] system h = h
  steps-IsIdle sent (event ∷ events) system h =
      steps-IsIdle sent events (step draw event system) (step-IsIdle sent event system h)

  -- Since the file imports the function `time` and calls `time.time()`, performOperation never sends a
  -- message: whatever the sinks and the arguments are, it raises AttributeError, and whatever responses
  -- come, seconds pass and aborts are requested afterwards, nothing is sent, no answer is accepted and
  -- the operation has no result. No request of the object is open before it.
  pub perform_operation-IsIdle :
      (sinks : List KnownSink) (s : SetDiagnostics) (events : List Event)
      → s.statuses ≡ []
      → IsIdle s.sent (steps draw events (perform_operation draw sinks s))
  unfolding perform_operation start begin_operation
  perform_operation-IsIdle sinks s events empty =
      steps-IsIdle s.sent events (perform_operation draw sinks s) (refl, refl, empty)
