-- ===== src/Tests/Accounts.antt =====
-- Whole logins, on concrete disks with a concrete server.
use usezombie.Prelude.{
  ◌≡◌, refl, Text, codes, text_eq, true, false, none, some, [], ◌∷◌, if◌then◌else◌,
}
use usezombie.Json.{null, obj, end}
use usezombie.Http.{returned, threw, primitive}
use usezombie.Cli.Effects.{exit_of}
use usezombie.Cli.Store.{Disk, Credentials, missing, holds, get_access_token}
use usezombie.Login.Flow.{
  LoginFlags, Terminal, Server, Machine, login_effect, complete_verification_branch,
}
use usezombie.Login.{prompt_yes_no}
use usezombie.Login.Saved.{login_effect-LeavesSafe, LeavesSafe}
use usezombie.Login.Refused.{login_effect-refused}

-- The token that the server issues is the code with which it was asked for; it accepts "123456".
abbrev server : Server Text
server = record {
  create_session = λ name. returned "session";
  verify = λ session n code. returned code;
  decrypt = λ answer. some answer;
  billing = λ token. if text_eq token (codes "123456") then returned null else threw primitive;
  workspaces = λ token. returned (obj end);
}

abbrev machine : Machine
machine = record {
  now = 7;
  api_url = "https://api";
  default_token_name = "cli";
  show = λ n. "n";
  thrown = "?";
  is_finite = λ n. true;
}

abbrev flags : LoginFlags
flags = record {
  no_input = false;
  force = false;
  token_name = none;
  token_flag = none;
  env_token = none;
}

abbrev terminal : Text → Terminal
terminal line = record { is_tty = true; piped = []; answer = none; lines = some line ∷ [] }

abbrev no_files : Disk
no_files = record { credentials = missing; workspaces = missing; writes = [] }

abbrev logged_in : Disk
logged_in = record {
  credentials =
      holds (record {
        token = some (codes "old");
        saved_at = some 3;
        session_id = none;
        api_url = none;
      });
  workspaces = missing;
  writes = [];
}

abbrev cleared : Credentials
cleared = record { token = none; saved_at = some 7; session_id = none; api_url = none }

-- A token with which the API does not answer is removed again.
rolled_back :
    (login_effect machine server flags (terminal (codes "111111")) no_files).1.credentials
    ≡ holds cleared
unfolding login_effect complete_verification_branch
rolled_back = refl

login_effect-LeavesSafe_example :
    LeavesSafe machine server missing []
      (login_effect machine server flags (terminal (codes "123456")) no_files)
login_effect-LeavesSafe_example =
    login_effect-LeavesSafe machine server flags (terminal (codes "123456")) no_files

login_effect-refused_example :
    let (o, after) = login_effect machine server flags (terminal (codes "123456")) logged_in in
    (exit_of o ≡ 130) × (after ≡ logged_in)
unfolding get_access_token prompt_yes_no
login_effect-refused_example =
    login_effect-refused machine server flags (terminal (codes "123456")) logged_in (codes "old")
      refl refl refl
