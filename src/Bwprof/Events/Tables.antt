-- ===== src/Bwprof/Events/Tables.antt =====
-- The tables of the monitoring loop, entry by entry.
use hmsdk.Base.{
  ℕ, zero, suc, ◌+◌, ◌<◌, ◌≤◌, ◌≡◌, refl, ap, ◌∙◌, inl, inr, some, List, [], ◌∷◌, ◌++◌,
  append_assoc, arith, length, length-append, get_elem?, get_elem?-append-length, set-append-length,
  if◌then◌else◌, Bool-cases,
}
use hmsdk.Base.Int.{ℤ}
use hmsdk.Bwprof.Result.{ok}
use hmsdk.Bwprof.Config.{skips}
use hmsdk.Bwprof.Stats.{SocketMemoryData, zero_data, accumulate}
use hmsdk.Bwprof.Pcm.{Pcm}
use hmsdk.Bwprof.Events.{
  socket_events, calculate_events_from, calculate_events, fill_from, accumulate_all,
}

module _ {ℓ} {A : Type ℓ} where
  get_elem?-fill_from_at :
      (f : ℕ → A) (n i j : ℕ) → j < n → get_elem? (fill_from f n i) j ≡ some (f (i + j))
  get_elem?-fill_from_at f zero i j h = elim h [ ]
  get_elem?-fill_from_at f (suc n) i zero h = ap (λ k. some (f k)) (omega arith)
  get_elem?-fill_from_at f (suc n) i (suc j) h =
      get_elem?-fill_from_at f n (i + 1) j (omega arith) ∙ ap (λ k. some (f k)) (omega arith)

  pub get_elem?-fill_from :
      (f : ℕ → A) (n j : ℕ) → j < n → get_elem? (fill_from f n 0) j ≡ some (f j)
  get_elem?-fill_from f n j h =
      get_elem?-fill_from_at f n 0 j h ∙ ap (λ k. some (f k)) (omega arith)

  pub length-fill_from : (f : ℕ → A) (n i : ℕ) → length (fill_from f n i) ≡ n
  length-fill_from f zero i = refl
  length-fill_from f (suc n) i = ap suc (length-fill_from f n (i + 1))

module _ {S : Type 0} (pcm : Pcm S) (target : ℤ) (prev curr : ℕ → S) where
  -- What the table holds for a socket after `calculateEvents`.
  abbrev pub events_at : ℕ → SocketMemoryData
  events_at skt =
      if skips target skt
      then zero_data
      else socket_events pcm (prev skt) (curr skt) (pcm.num_cxl_ports skt)

  calculate_events_from-eq :
      (n left skt : ℕ) (before old : List SocketMemoryData)
      → skt + left ≤ n
      → length before ≡ skt
      → length old ≡ left
      → calculate_events_from pcm target
          (fill_from pcm.num_cxl_ports n 0)
          (fill_from prev n 0)
          (fill_from curr n 0)
          left
          skt
          (before ++ old)
        ≡ ok (before ++ fill_from events_at left skt)
  unfolding calculate_events_from
  calculate_events_from-eq n zero skt before [] h b o = refl
  calculate_events_from-eq n zero skt before (x ∷ old) h b o = absurd (omega arith)
  calculate_events_from-eq n (suc left) skt before [] h b o = absurd (omega arith)
  calculate_events_from-eq n (suc left) skt before (x ∷ old) h b o =
      let next = λ (v : SocketMemoryData).
        calculate_events_from-eq n left (skt + 1) (before ++ (v ∷ [])) old (omega arith)
          (omega (arith, length-append {0} before (v ∷ []))) (omega arith) in
      elim (Bool-cases (skips target skt)) [
        | inl skip ↦
            rw (get_elem?-append-length before old x skt b, skip)
              (rw (set-append-length before old x zero_data skt b)
                (simp append_assoc at (next zero_data)))
        | inr keep ↦
            let p = get_elem?-fill_from prev n skt (omega arith) in
            let c = get_elem?-fill_from curr n skt (omega arith) in
            let k = get_elem?-fill_from pcm.num_cxl_ports n skt (omega arith) in
            let events = socket_events pcm (prev skt) (curr skt) (pcm.num_cxl_ports skt) in
            rw (get_elem?-append-length before old x skt b, keep, p, c, k)
              (rw (set-append-length before old x events skt b)
                (simp append_assoc at (next events)))
      ]

  -- Over the states that `readStates` stores and a table of the right size, `calculateEvents` reads
  -- and writes nothing out of range: it replaces every entry, by zeros where the socket is skipped.
  pub calculate_events-eq :
      (n : ℕ) (table : List SocketMemoryData)
      → length table ≡ n
      → calculate_events pcm target n
          (fill_from pcm.num_cxl_ports n 0)
          (fill_from prev n 0)
          (fill_from curr n 0)
          table
        ≡ ok (fill_from events_at n 0)
  unfolding calculate_events
  calculate_events-eq n table e = calculate_events_from-eq n n 0 [] table (omega arith) refl e

pub accumulate_all-fill_from :
    (acc now : ℕ → SocketMemoryData) (n i : ℕ)
    → accumulate_all (fill_from acc n i) (fill_from now n i)
      ≡ ok (fill_from (λ s. accumulate (acc s) (now s)) n i)
unfolding accumulate_all
accumulate_all-fill_from acc now zero i = refl
accumulate_all-fill_from acc now (suc n) i = rw (accumulate_all-fill_from acc now n (i + 1))
