-- ===== src/Bwprof/Info/RoundTrip.antt =====
-- `printInfo` on the text that `collectAndSave` saves.
use hmsdk.Base.{
  ◌≡◌, refl, ap, sym, true, Option, some, List, [], ◌∷◌, ◌++◌, append_assoc, arith, Bytes, codes,
  Lacks, All, All-append,
}
use Prim.Native.String.{String}
use hmsdk.Bwprof.Result.{Result, ok, throw, undefined, ◌>>=◌}
use hmsdk.Bwprof.Double.{Double, IsPrinted}
use hmsdk.Bwprof.Split.{split_string}
use hmsdk.Bwprof.Split.RoundTrip.{lines, split_string-lines, split_string-Lacks}
use hmsdk.Bwprof.Info.{
  InfoLine, pop_newline, info_from, parse_info, recorded_on, cmdline, cpu_info, number_of_cpus,
  memory_info, system_load, kernel_version, hostname, distro, show_info, print_info,
}
use hmsdk.Bwprof.Info.Collect.{
  terabytes, Machine, print_long, cpu_model, distribution, kernel_line, hostname_line, cpus_value,
  meminfo_value, info_text, collect_and_save,
}
use hmsdk.Bwprof.Info.OneLine.{
  newline, ok-injective, Lacks-print_long, Lacks-distribution, Lacks-cpu_model,
}

info_text-lines :
    {D : Type 0} (d : Double D) (machine : Machine) (cmd model time : Bytes)
    → machine.ctime ≡ time ++ (newline ∷ [])
    → info_text d machine cmd model
      ≡ lines newline (
          codes "data_version:1"
          ∷ (codes "cmdline:" ++ cmd)
          ∷ (codes "recorded_time:" ++ time)
          ∷ codes "cpuinfo:lines=2"
          ∷ (codes "nr_cpus:" ++ cpus_value machine)
          ∷ (codes "desc:" ++ model)
          ∷ (codes "meminfo:" ++ meminfo_value d machine)
          ∷ codes "osinfo:lines=3"
          ∷ (codes "kernel:" ++ kernel_line machine.uname)
          ∷ (codes "hostname:" ++ hostname_line machine.nodename)
          ∷ (codes "distro:" ++ distribution (split_string machine.os_release newline))
          ∷ [])
unfolding info_text
info_text-lines d machine cmd model time e = rw (e, append_assoc) refl

pop_newline-Lacks : (s : Bytes) → Lacks newline s → pop_newline s ≡ s
unfolding pop_newline
pop_newline-Lacks [] l = refl
pop_newline-Lacks (c ∷ []) l = ground (arith, l.0)
pop_newline-Lacks (c ∷ d ∷ s) l = ap (◌∷◌ c) (pop_newline-Lacks (d ∷ s) l.1)

labelled :
    (label : String) (value : Bytes)
    → Lacks newline (codes label)
    → Lacks newline value
    → Lacks newline (codes label ++ value)
labelled label value ll lv = All-append _ (codes label) value ll lv

-- The eleven lines of the file, and what is shown of them.
module _ (time cmd model cpus mem kernel host distr : Bytes) where
  abbrev saved_lines : List Bytes
  saved_lines =
      codes "data_version:1"
      ∷ (codes "cmdline:" ++ cmd)
      ∷ (codes "recorded_time:" ++ time)
      ∷ codes "cpuinfo:lines=2"
      ∷ (codes "nr_cpus:" ++ cpus)
      ∷ (codes "desc:" ++ model)
      ∷ (codes "meminfo:" ++ mem)
      ∷ codes "osinfo:lines=3"
      ∷ (codes "kernel:" ++ kernel)
      ∷ (codes "hostname:" ++ host)
      ∷ (codes "distro:" ++ distr)
      ∷ []

  abbrev shown_lines : Option Bytes → List InfoLine
  shown_lines load =
      recorded_on time
      ∷ cmdline cmd
      ∷ cpu_info model
      ∷ number_of_cpus cpus
      ∷ memory_info mem
      ∷ system_load load
      ∷ kernel_version kernel
      ∷ hostname host
      ∷ distro distr
      ∷ []

  show_info-saved_lines :
      (load : Option Bytes)
      → Lacks newline time
      → show_info load (info_from 0 saved_lines []) ≡ shown_lines load
  unfolding show_info info_from
  show_info-saved_lines load l = rw (pop_newline-Lacks time l) refl

  saved_lines-Lacks :
      Lacks newline time
      → Lacks newline cmd
      → Lacks newline model
      → Lacks newline cpus
      → Lacks newline mem
      → Lacks newline kernel
      → Lacks newline host
      → Lacks newline distr
      → All (Lacks newline) saved_lines
  saved_lines-Lacks lt lc lm lp le lk lh ld = (
    omega arith,
    (
      labelled "cmdline:" _ (omega arith) lc,
      (
        labelled "recorded_time:" _ (omega arith) lt,
        (
          omega arith,
          (
            labelled "nr_cpus:" _ (omega arith) lp,
            (
              labelled "desc:" _ (omega arith) lm,
              (
                labelled "meminfo:" _ (omega arith) le,
                (
                  omega arith,
                  (
                    labelled "kernel:" _ (omega arith) lk,
                    (
                      labelled "hostname:" _ (omega arith) lh,
                      (labelled "distro:" _ (omega arith) ld, tt),
                    ),
                  ),
                ),
              ),
            ),
          ),
        ),
      ),
    ),
  )

  print_info-lines :
      (data_dir : Bytes) (load : Option Bytes)
      → Lacks newline time
      → All (Lacks newline) saved_lines
      → print_info data_dir (some (lines newline saved_lines)) load ≡ ok (shown_lines load)
  unfolding print_info parse_info
  print_info-lines data_dir load lt l =
      rw (split_string-lines newline saved_lines l) (ap ok (show_info-saved_lines load lt))

module _ {D : Type 0} (d : Double D) (machine : Machine) (cmd : Bytes) {text : Bytes} where
  model_of :
      (m : Result Bytes)
      → (m >>= λ model. ok (info_text d machine cmd model)) ≡ ok text
      → (model : Bytes) × (m ≡ ok model) × (text ≡ info_text d machine cmd model)
  model_of (ok model) e = (model, refl, ok-injective (sym e))
  model_of (throw _) e = cc
  model_of undefined e = cc

  saved_model :
      (data_dir : Bytes)
      → collect_and_save d machine data_dir cmd true ≡ ok text
      → (model : Bytes) × (cpu_model (split_string machine.cpuinfo newline) ≡ ok model)
        × (text ≡ info_text d machine cmd model)
  unfolding collect_and_save
  saved_model data_dir e = model_of (cpu_model (split_string machine.cpuinfo newline)) e

Lacks-cpus_value : (machine : Machine) → Lacks newline (cpus_value machine)
Lacks-cpus_value machine =
    All-append _ (print_long machine.online_cpus) _ (Lacks-print_long machine.online_cpus) (
      labelled " / " _ (omega arith) (
        All-append _ (print_long machine.conf_cpus) _ (Lacks-print_long machine.conf_cpus)
          (omega arith)))

module _ {D : Type 0} ⦃d : Double D⦄ (p : IsPrinted D) where
  Lacks-meminfo_value : (machine : Machine) → Lacks newline (meminfo_value d machine)
  Lacks-meminfo_value machine =
      All-append _ (d.fixed 1 (terabytes d machine machine.free_pages)) _ (p.fixed_no_newline 1 _) (
        labelled " / " _ (omega arith) (
          All-append _ (d.fixed 1 (terabytes d machine machine.total_pages)) _
            (p.fixed_no_newline 1 _) (omega arith)))

  -- The information that is collected and saved is what is shown: if the save succeeds, `printInfo`
  -- on the saved text shows the time, the command line, a model name, the CPU counts, the memory,
  -- the load, the kernel, the host and the distribution, provided that the time text is one line
  -- and that the command line, the answers of `uname` and the host name hold no newline.
  pub print_info-collect_and_save :
      (machine : Machine) (data_dir cmd time : Bytes) (load : Option Bytes) {text : Bytes}
      → machine.ctime ≡ time ++ (newline ∷ [])
      → Lacks newline time
      → Lacks newline cmd
      → Lacks newline (kernel_line machine.uname)
      → Lacks newline (hostname_line machine.nodename)
      → collect_and_save d machine data_dir cmd true ≡ ok text
      → (model : Bytes) × (cpu_model (split_string machine.cpuinfo newline) ≡ ok model)
        × (print_info data_dir (some text) load
            ≡ ok (
                recorded_on time
                ∷ cmdline cmd
                ∷ cpu_info model
                ∷ number_of_cpus (cpus_value machine)
                ∷ memory_info (meminfo_value d machine)
                ∷ system_load load
                ∷ kernel_version (kernel_line machine.uname)
                ∷ hostname (hostname_line machine.nodename)
                ∷ distro (distribution (split_string machine.os_release newline))
                ∷ []))
  print_info-collect_and_save machine data_dir cmd time load {text} e lt lc lk lh saved =
      let (model, m, t) = saved_model d machine cmd data_dir saved in
      (
        model,
        m,
        rw (t, info_text-lines d machine cmd model time e)
            (print_info-lines time cmd model (cpus_value machine) (meminfo_value d machine)
              (kernel_line machine.uname) (hostname_line machine.nodename)
              (distribution (split_string machine.os_release newline)) data_dir load lt
              (saved_lines-Lacks time cmd model (cpus_value machine) (meminfo_value d machine)
                (kernel_line machine.uname) (hostname_line machine.nodename)
                (distribution (split_string machine.os_release newline)) lt lc
                (Lacks-cpu_model _ model (split_string-Lacks machine.cpuinfo newline) m)
                (Lacks-cpus_value machine) (Lacks-meminfo_value machine) lk lh
                (Lacks-distribution _ (split_string-Lacks machine.os_release newline)))),
      )
