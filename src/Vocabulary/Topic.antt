-- ===== src/Vocabulary/Topic.antt =====
-- The enum `Topic` of runstate/vocabulary/payloads.py: each member is its wire string.

use runstate.Prelude.{String}

abbrev pub value : String
value = "value"

abbrev pub lifecycle_started : String
lifecycle_started = "lifecycle.started"

abbrev pub lifecycle_commit : String
lifecycle_commit = "lifecycle.commit"

abbrev pub lifecycle_heartbeat : String
lifecycle_heartbeat = "lifecycle.heartbeat"

abbrev pub lifecycle_rewind : String
lifecycle_rewind = "lifecycle.rewind"

abbrev pub lifecycle_stopped : String
lifecycle_stopped = "lifecycle.stopped"

abbrev pub lifecycle_bound : String
lifecycle_bound = "lifecycle.bound"

abbrev pub lifecycle_nak : String
lifecycle_nak = "lifecycle.nak"

abbrev pub supervisor_launched : String
supervisor_launched = "supervisor.launched"

abbrev pub supervisor_terminated : String
supervisor_terminated = "supervisor.terminated"

abbrev pub supervisor_died : String
supervisor_died = "supervisor.died"

abbrev pub control_subscribe : String
control_subscribe = "control.subscribe"

abbrev pub control_stop : String
control_stop = "control.stop"

abbrev pub control_withdraw : String
control_withdraw = "control.withdraw"
