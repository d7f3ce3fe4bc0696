-- ===== src/Bwprof/Info/Tests.antt =====
-- The info.txt of a small machine.
use hmsdk.Base.{◌≡◌, refl, some, [], ◌∷◌, codes, arith, ◌^◌, Bytes}
use hmsdk.Base.Int.{pos}
use hmsdk.Bwprof.Result.{ok}
use hmsdk.Bwprof.Split.{split_string}
use hmsdk.Bwprof.Sample.{whole_double, whole-IsPrinted}
use hmsdk.Bwprof.Info.{
  split_at_colon, after_prefix, contains_text, print_info, recorded_on, cmdline, cpu_info,
  number_of_cpus, memory_info, system_load, kernel_version, hostname, distro,
}
use hmsdk.Bwprof.Info.Collect.{
  Machine, cpu_model, before_quote, remove_quotes, distribution, info_text, collect_and_save,
  cpus_value, meminfo_value,
}
use hmsdk.Bwprof.Info.RoundTrip.{print_info-collect_and_save}

abbrev small_machine : Machine
small_machine = record {
  ctime = codes "Thu Jan 1\n";
  online_cpus = pos 2;
  conf_cpus = pos 4;
  cpuinfo = codes "processor : 0\nmodel name : ABC\nmodel name : DEF\n";
  os_release = codes "NAME=x\nPRETTY_NAME=\"Fedora\"\n";
  page_size = 4096;
  free_pages = 0;
  total_pages = 2 ^ 28;
  uname = some (codes "Linux", codes "6.1");
  nodename = some (codes "host");
}

finds_cpu : cpu_model (split_string small_machine.cpuinfo b'\n') ≡ ok (codes "ABC")
unfolding cpu_model split_string contains_text after_prefix split_at_colon
finds_cpu = refl

finds_distribution : distribution (split_string small_machine.os_release b'\n') ≡ codes "Fedora"
unfolding distribution split_string after_prefix remove_quotes before_quote
finds_distribution = refl

print_info-collect_and_save_example :
    (model : Bytes) × (cpu_model (split_string small_machine.cpuinfo b'\n') ≡ ok model)
    × (print_info
          (codes "bwprof.data")
          (some (info_text whole_double small_machine (codes "bwprof") (codes "ABC")))
          (some (codes "1"))
        ≡ ok (
            recorded_on (codes "Thu Jan 1")
            ∷ cmdline (codes "bwprof")
            ∷ cpu_info model
            ∷ number_of_cpus (cpus_value small_machine)
            ∷ memory_info (meminfo_value whole_double small_machine)
            ∷ system_load (some (codes "1"))
            ∷ kernel_version (codes "Linux 6.1")
            ∷ hostname (codes "host")
            ∷ distro (distribution (split_string small_machine.os_release b'\n'))
            ∷ []))
unfolding collect_and_save cpu_model split_string contains_text after_prefix split_at_colon
print_info-collect_and_save_example =
    print_info-collect_and_save whole-IsPrinted small_machine (codes "bwprof.data") (codes "bwprof")
      (codes "Thu Jan 1") (some (codes "1")) refl (omega arith) (omega arith) (omega arith)
      (omega arith) refl
