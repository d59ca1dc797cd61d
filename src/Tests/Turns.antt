-- ===== src/Tests/Turns.antt =====
-- Turns of a conversation at concrete answers.
use usezombie.Prelude.{◌≡◌, refl, codes, trim, true, false, none, some, List, [], ◌∷◌}
use usezombie.Http.{returned, threw, primitive}
use usezombie.Cli.Effects.{succeeded}
use usezombie.Steer.{polled}
use usezombie.Steer.Command.{World, Machine, Round, steer_turn, run_steer_repl}
use usezombie.Steer.Turn.{IsHonest, IsProcessed, steer_turn-IsHonest}
use usezombie.Steer.Repl.{IsSession, messages, until_stopped, exit_status, run_steer_repl-IsSession}
use usezombie.Tests.Retries.{one_text}
use usezombie.Tests.Steers.{third_time, completion}

-- The stream is no stream, so that the polls decide.
abbrev world : World
world = record {
  post = λ message. returned (some "e");
  opened = none;
  stream_aborted = false;
  polls = third_time;
  start = 1000;
  aborted_after_stream = false;
  aborted_at_end = false;
}

abbrev machine : Machine
machine = record {
  runtime = one_text;
  parse = completion;
  timed_out = "timed out";
  url = "https://api";
  show = λ n. "n";
  thrown = "?";
}

by_polling : steer_turn machine world (codes "hello") ≡ some (succeeded tt)
unfolding steer_turn polled
by_polling = refl

steer_turn-IsHonest_example :
    IsHonest (IsProcessed machine world (codes "hello")) (steer_turn machine world (codes "hello"))
steer_turn-IsHonest_example = steer_turn-IsHonest machine world (codes "hello")

abbrev failing : World
failing = record world { post = λ message. threw primitive }

-- An error, a blank line, and a turn that is interrupted.
abbrev rounds : List Round
rounds =
    record { raw = codes " a "; world = failing; stopped = false }
    ∷ record { raw = codes "  "; world = world; stopped = false }
    ∷ record { raw = codes "b"; world = world; stopped = true }
    ∷ record { raw = codes "c"; world = world; stopped = false }
    ∷ []

sent_lines : messages (until_stopped rounds) ≡ codes "a" ∷ codes "b" ∷ []
unfolding trim
sent_lines = refl

run_steer_repl-IsSession_example :
    IsSession
      (messages (until_stopped rounds))
      (exit_status rounds false)
      (run_steer_repl machine rounds false)
run_steer_repl-IsSession_example = run_steer_repl-IsSession machine rounds false
