-- ===== src/Provisioning/Machine/Actions.antt =====
-- The small methods of `ProvisioningStateMachine`: the origin of the last packet, the timer, and the
-- writes of its state and status.
use backend_client.Base.{none, some, ltb, if◌then◌else◌}
use backend_client.Base.Exceptions.{ok, err, type_error, attribute_error}
use backend_client.Provisioning.Message.{Header}
use backend_client.Provisioning.Machine.Defs.{State, Status, started, cancelled}
use backend_client.Provisioning.Machine.Monad.{M, ◌>>◌, modify}

-- `_update_origin`
unfoldable pub update_origin : Header → M (Unit {0})
update_origin h m = elim h.tx_time [
  | none ↦ (err type_error, m)
  | some t ↦ (
    ok tt,
    if ltb m.tx_time t then record m { sink_id = h.sink_id; gw_id = h.gw_id; tx_time = t } else m,
  )
]

-- `_timer_cancel`
unfoldable pub timer_cancel : M (Unit {0})
timer_cancel = modify (λ m. record m { timer = none })

-- `_timer_start`: a timer that is there is cancelled first.
unfoldable pub timer_start : M (Unit {0})
unfolding timer_cancel
timer_start = do timer_cancel; modify (λ m. record m { timer = some (started m.delay) })

-- `self._timer.cancel()`
unfoldable pub cancel_timer : M (Unit {0})
cancel_timer m = elim m.timer [
  | none ↦ (err attribute_error, m)
  | some t ↦ (ok tt, record m { timer = some cancelled })
]

abbrev pub set_state : State → M (Unit {0})
set_state s = modify (λ m. record m { state = s })

abbrev pub set_status : Status → M (Unit {0})
set_status s = modify (λ m. record m { status = s })
