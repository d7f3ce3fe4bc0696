-- ===== src/Hmctl/Tests.antt =====
-- Command lines and environments of hmctl.
use hmsdk.Base.{
  ◌^◌, ◌-◌, ◌+◌, same_text, ◌≡◌, refl, true, some, List, [], ◌∷◌, Bytes, codes, get_elem?, arith,
}
use hmsdk.Base.Int.{pos}
use hmsdk.Base.Decimal.{to_decimal, strtol, read_digits}
use hmsdk.Base.Long.{atol, atoi}
use hmsdk.Hmalloc.Env.{Environ, setenv, update_env, getenv_nodemask, getenv}
use hmsdk.Hmctl.{
  Opts, handled, default_opts, Numa, key_preferred, key_membind, key_args, key_end, parse_option,
  parse_keys, setup_child_environ,
}
use hmsdk.Hmctl.Settings.{
  choice_of, applied, update_env-setup_child_environ, getenv_nodemask-to_decimal,
}
use hmsdk.Hmctl.Main.{executes, main}
use hmsdk.Hmctl.Main.Executed.{argp_calls, main-executes}
use hmsdk.Hmalloc.Library.{Globals, hmalloc_init, extent_alloc}
use hmsdk.Hmalloc.Mapping.{Ended}
use hmsdk.Hmalloc.Sample.{Heap, heap_libc, heap-IsLibc, new_heap}
use hmsdk.Hmctl.Main.Bound.{IsBound, main_binds}
use hmsdk.Hmctl.Exclusive.{IsExclusive, parse_keys-IsExclusive}

-- Nodes as a mask in decimal digits.
abbrev small_numa : Numa
small_numa = record {
  mpol_preferred = 1;
  mpol_bind = 2;
  mpol_interleave = 3;
  numa_parse_nodestring = λ nodes. some (read_digits 0 nodes);
}

-- `hmctl -m 6 ls`
abbrev bind_ls : Opts
bind_ls = record default_opts { membind = some (codes "6"); exename = some (codes "ls"); idx = 3 }

abbrev inherited_environ : Environ
inherited_environ = (codes "HMALLOC_NODEMASK", codes "1") ∷ (codes "HOME", codes "/root") ∷ []

update_env-setup_child_environ_example :
    update_env 0 (
      setenv (codes "HMALLOC_JEMALLOC") (codes "1") (
        setenv
          (codes "HMALLOC_NODEMASK")
          (to_decimal 6)
          (setenv (codes "HMALLOC_MPOL_MODE") (to_decimal 2) inherited_environ)))
    ≡ applied (choice_of small_numa bind_ls) (update_env 0 inherited_environ)
unfolding setup_child_environ read_digits
update_env-setup_child_environ_example =
    update_env-setup_child_environ small_numa 0 bind_ls inherited_environ (omega arith, omega arith)
      refl

parse_keys-IsExclusive_example : IsExclusive bind_ls
unfolding parse_keys parse_option
parse_keys-IsExclusive_example =
    parse_keys-IsExclusive (key_membind (codes "6") ∷ key_args 3 (codes "ls") ∷ key_end 1 ∷ [])
      bind_ls refl

-- `hmctl -m 6 ls -l`
abbrev command_line : List Bytes
command_line = codes "hmctl" ∷ codes "-m" ∷ codes "6" ∷ codes "ls" ∷ codes "-l" ∷ []

main-executes_example :
    (env' : Environ) × (main small_numa command_line inherited_environ
        (λ _. true)
        (argp_calls (key_membind (codes "6") ∷ []) 5 3 (codes "ls"))
      ≡ executes (some (codes "ls")) (codes "ls" ∷ codes "-l" ∷ []) env')
    × (get_elem? (codes "ls" ∷ codes "-l" ∷ []) 0 ≡ some (codes "ls"))
    × (update_env 0 env'
        ≡ applied
            (choice_of small_numa (record default_opts { membind = some (codes "6") }))
            (update_env 0 inherited_environ))
unfolding parse_keys parse_option read_digits
main-executes_example =
    main-executes small_numa 0 (key_membind (codes "6") ∷ [])
      (record default_opts { membind = some (codes "6") }) command_line 3 (codes "ls")
      inherited_environ (λ _. true) (tt, tt) refl refl tt (omega arith, omega arith) refl

-- An extent of 8192 bytes in `ls`, which is mapped at 65536.
abbrev mapped_heap : Heap
mapped_heap = record new_heap { maps = (65536, 8192) ∷ [] }

main_binds_example :
    (env' : Environ) × (g : Globals) × (main small_numa command_line inherited_environ
        (λ _. true)
        (argp_calls (key_membind (codes "6") ∷ []) 5 3 (codes "ls"))
      ≡ executes (some (codes "ls")) (codes "ls" ∷ codes "-l" ∷ []) env')
    × (hmalloc_init heap_libc true 0 env' new_heap ≡ some (g, new_heap))
    × Ended heap_libc heap-IsLibc g 8192 [] (extent_alloc heap_libc g 8192 new_heap)
    × IsBound heap_libc heap-IsLibc
        (pos 2)
        6
        65536
        (heap_libc.mbind 65536 8192 (pos 2) 6 63 mapped_heap)
        (extent_alloc heap_libc g 8192 new_heap)
unfolding parse_keys parse_option read_digits
main_binds_example =
    main_binds small_numa 0 heap_libc heap-IsLibc (key_membind (codes "6") ∷ [])
      (record default_opts { membind = some (codes "6") }) command_line 3 (codes "ls")
      inherited_environ (λ _. true) true 2 6 8192 new_heap new_heap (tt, tt) refl refl tt refl
      (omega arith) (omega arith) (omega arith) (omega arith) (omega arith) refl refl (omega arith)
      (omega arith)

-- A preferred node 0 stands beside nodes to bind to.
keeps_both :
    parse_keys (key_preferred (codes "0") ∷ key_membind (codes "6") ∷ []) default_opts
    ≡ handled (record default_opts { preferred = pos 0; membind = some (codes "6") })
unfolding parse_keys parse_option atoi atol strtol
keeps_both = refl

-- The variable with the nodes 1 and 63.
getenv_nodemask-to_decimal_example :
    getenv_nodemask ((codes "HMALLOC_NODEMASK", to_decimal (2 ^ 63 + 2)) ∷ []) ≡ 2 ^ 63 - 1
unfolding getenv same_text
getenv_nodemask-to_decimal_example =
    getenv_nodemask-to_decimal (2 ^ 63 + 2)
      ((codes "HMALLOC_NODEMASK", to_decimal (2 ^ 63 + 2)) ∷ []) (omega arith) refl
