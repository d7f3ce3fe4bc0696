-- ===== src/Bwprof/Profiler/Sample.antt =====
-- Sessions on the small machine: `bwprof record -s 1 -- true`, where the command exits at once, and
-- one measurement later.
use hmsdk.Base.{ℕ, ◌+◌, ◌≡◌, refl, inr, true, some, List, [], ◌∷◌, arith, Bytes, codes, ◌^◌}
use hmsdk.Base.Int.{pos}
use hmsdk.Bwprof.Result.{ok}
use hmsdk.Bwprof.Config.{Config}
use hmsdk.Bwprof.Split.{split_string}
use hmsdk.Bwprof.Process.{in_parent, still_running, exited, block_exited}
use hmsdk.Bwprof.Monitor.{Round}
use hmsdk.Bwprof.Info.{after_prefix, contains_text, split_at_colon}
use hmsdk.Bwprof.Info.Collect.{Machine, cpu_model, info_text, collect_and_save}
use hmsdk.Bwprof.Sample.{whole_double, small_pcm, record_config}
use hmsdk.Bwprof.Profiler.{World, full_cmdline}
use hmsdk.Bwprof.Profiler.Session.{CommandRun}

abbrev pub machine : Machine
machine = record {
  ctime = codes "Thu Jan 1\n";
  online_cpus = pos 2;
  conf_cpus = pos 4;
  cpuinfo = codes "processor : 0\nmodel name : ABC\n";
  os_release = codes "PRETTY_NAME=\"Fedora\"\n";
  page_size = 4096;
  free_pages = 0;
  total_pages = 2 ^ 28;
  uname = some (codes "Linux", codes "6.1");
  nodename = some (codes "host");
}

-- `bwprof record -s 1 -- true`
abbrev pub true_config : Config
true_config = record record_config { command_args = codes "true" ∷ [] }

abbrev pub measurement : Round ℕ ℕ
measurement = record {
  waited = still_running;
  current_time = 2100;
  states = λ skt. 25 + skt;
  timestamp = 7;
}

abbrev pub exit_round : Round ℕ ℕ
exit_round = record { waited = exited 0; current_time = 4100; states = λ skt. 70; timestamp = 9 }

abbrev pub world : List (Round ℕ ℕ) → World ℕ ℕ
world rounds = record {
  programmed = true;
  metrics = ok tt;
  csv_opens = true;
  forked = in_parent 42;
  machine = machine;
  info_opens = true;
  first_time = 100;
  first_states = λ _. 10;
  rounds = rounds;
  blocked = block_exited 0;
}

abbrev pub info : Bytes
info = info_text whole_double machine (codes "bwprof record -- true") (codes "ABC")

pub saves :
    collect_and_save whole_double machine true_config.data_dir
      (full_cmdline true_config.command_args)
      true
    ≡ ok info
unfolding collect_and_save cpu_model split_string contains_text after_prefix split_at_colon
    full_cmdline
saves = refl

abbrev pub at_once : CommandRun small_pcm true_config (world (exit_round ∷ [])) [] info
at_once = record {
  records = refl;
  command = refl;
  programmed = refl;
  metrics = refl;
  sockets = omega arith;
  opens = refl;
  pid = 42;
  pid_pos = omega arith;
  forked = refl;
  saved = saves;
  last = exit_round;
  more = [];
  rounds = refl;
  going-GoesOn = tt;
  status = 0;
  exits = refl;
}

abbrev pub later :
    CommandRun small_pcm true_config (world (measurement ∷ exit_round ∷ [])) (measurement ∷ []) info
later = record {
  records = refl;
  command = refl;
  programmed = refl;
  metrics = refl;
  sockets = omega arith;
  opens = refl;
  pid = 42;
  pid_pos = omega arith;
  forked = refl;
  saved = saves;
  last = exit_round;
  more = [];
  rounds = refl;
  going-GoesOn = (inr refl, tt);
  status = 0;
  exits = refl;
}
