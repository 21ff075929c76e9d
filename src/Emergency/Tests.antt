-- ===== src/Emergency/Tests.antt =====
-- The theorem on the emergency stop at a concrete workspace, with one running bot.
use ai_system_trading.Prelude.{none, some, [], false, arith}
use ai_system_trading.Events.Pairing.{none_left}
use ai_system_trading.Halt.Invariant.{IsValid}
use ai_system_trading.Bot.Types.{RunStatus}
use ai_system_trading.Bot.Tests.{running_bot, a_db, running_db-IsValid}
use ai_system_trading.Emergency.Stop.{Request, World, halt_store, emergency_stop_workspace}
use ai_system_trading.Emergency.Outcome.{Accomplished, emergency_stop_workspace-Accomplished}

abbrev by_owner : Request
by_owner = record { requested_by = some 9; close_positions = false; reason = none }

abbrev one_bot : World
one_bot = record { db = a_db running_bot RunStatus.running; halts = []; reactivations = [] }

one_bot-IsValid : IsValid (halt_store one_bot)
one_bot-IsValid = record {
  unique = tt;
  used = tt;
  single = λ s r. omega arith;
  stamped = tt;
  paired = record { paired = none_left; used = tt; unique = tt };
}

emergency_stop_workspace-Accomplished_example :
    Accomplished 1 (emergency_stop_workspace 1 by_owner 60 one_bot)
emergency_stop_workspace-Accomplished_example =
    emergency_stop_workspace-Accomplished 1 by_owner 60 one_bot running_db-IsValid one_bot-IsValid
