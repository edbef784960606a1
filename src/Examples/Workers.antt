-- ===== src/Examples/Workers.antt =====
-- The theorems on the threads of the plugin.
use commissioner.Prelude.{
  ℕ, ◌≡◌, inl, refl, ap, sym, subst, ◌∙◌, true, false, none, some, List, [], ◌∷◌, arith,
}
use commissioner.Commissioner.{Commissioner}
use commissioner.JoinerList.{JoinerList, success_ok, edit, list_update_finished}
use commissioner.JoinerList.Operations.{edit_lem}
use commissioner.Plugin.Rest.{put_joiner, respond}
use commissioner.Plugin.Rest.RoundTrip.{joiner_path, joiners_edit_lem}
use commissioner.Plugin.Announce.{testing, clearing, round_step, announce_steering, announce}
use commissioner.Plugin.Announce.Announced.{
  Told, announce_steering-Told, announce_lem, IsAnnounced, here, next, answers, announces,
  Reach-IsAnnounced,
}
use commissioner.Plugin.Announce.Lost.{start, steps, round_steps, told_lem, lost_update}
use commissioner.Plugin.Threads.{
  Manager, Shared, init_dtls, report_petitioning, wait_petition, disabled, new_manager, set_alive,
  release, manager_step, uses_commissioner, Reach, here as stay, next as more, manages,
}
use commissioner.Plugin.Threads.Alive.{Reach-uses}
use commissioner.Plugin.Threads.Reset.{Turn, Pair, take_turns, reset_commissioner, reset_race}
use commissioner.Examples.Joiners.{
  psk, eui, json, hash, no_joiners, text, result, one_joiner, one_joiner_lem,
}
use commissioner.Examples.Messages.{c0, buffer, buffer-length}
use commissioner.Examples.Tools.{no_key, prf}
use commissioner.Examples.Service.{nonzero_psk, no_integer, newest, host}

abbrev announced : JoinerList hash json → Commissioner → Commissioner
announced l c = elim (announce_steering hash json buffer [] l c) [ none ↦ c | some c' ↦ c' ]

abbrev finished : JoinerList hash json → JoinerList hash json
finished l = record l { updated = false }

announce_one : announce_steering hash json buffer [] one_joiner c0 ≡ some (announced one_joiner c0)
announce_one =
    let (c, e, t) =
      announce_steering-Told hash json buffer [] one_joiner c0 buffer-length
        one_joiner_lem.1.filter in
    e ∙ ap (λ o. some (elim o [ none ↦ c0 | some c' ↦ c' ])) (sym e)

put_one :
    respond hash json no_integer newest
      (λ j. [])
      prf
      3
      no_key
      (host no_joiners)
      put_joiner
      (record { body = psk; path = joiner_path eui })
    ≡ some (host one_joiner, record { code = success_ok; content = none })
unfolding respond
put_one =
    rw
      (
        joiners_edit_lem hash json no_joiners b'J' (b'0' ∷ b'1' ∷ b'N' ∷ b'M' ∷ b'E' ∷ []) eui
            nonzero_psk (ground arith),
        one_joiner_lem.0,
      )
      refl

announce_list :
    announce hash json buffer [] one_joiner c0 ≡ some (finished one_joiner, announced one_joiner c0)
unfolding list_update_finished
announce_list =
    announce_lem hash json buffer [] one_joiner c0 (announced one_joiner c0) one_joiner_lem.2
      announce_one

Reach-IsAnnounced_example :
    IsAnnounced hash json no_integer newest
      (λ j. [])
      prf
      3
      (host (finished one_joiner))
      (announced one_joiner c0)
Reach-IsAnnounced_example =
    Reach-IsAnnounced hash json no_integer newest (λ j. []) prf 3 {s = host no_joiners} {c = c0}
      (inl refl)
      (next
        (next here (
          answers no_key put_joiner (record { body = psk; path = joiner_path eui }) put_one refl
            tt))
        (announces buffer [] buffer-length one_joiner_lem.1.filter announce_list))

abbrev psk2 : List ℕ
psk2 = b'O' ∷ psk

abbrev edited : JoinerList hash json
edited = result (edit hash json one_joiner psk2 eui)

edited_lem : edit hash json one_joiner psk2 eui ≡ some (edited, success_ok)
edited_lem =
    let (l', e, v, u, synced) =
      edit_lem hash json one_joiner psk2 eui (text psk2) (text eui) one_joiner_lem.1 refl
        (omega arith) refl refl in
    subst (λ o. o ≡ some (result o, success_ok)) (sym e) refl

three_calls :
    round_steps hash json buffer [] 3 testing one_joiner c0
    ≡ some (clearing, one_joiner, announced one_joiner c0)
three_calls =
    told_lem hash json buffer [] one_joiner c0 (announced one_joiner c0) one_joiner_lem.2
      announce_one

lost_update_example :
    Told (announced one_joiner c0).sent one_joiner.steering
    × ((finished edited).steering ≡ edited.steering)
unfolding list_update_finished round_step
lost_update_example =
    lost_update hash json buffer [] psk2 eui one_joiner one_joiner edited (finished edited)
      (finished edited) c0 (announced one_joiner c0) (announced one_joiner c0)
      (announced one_joiner c0) clearing testing testing success_ok buffer-length
      one_joiner_lem.1.filter one_joiner_lem.2 three_calls edited_lem refl
      (steps buffer [] start refl)

abbrev fresh : Shared
fresh = record { pointer = none; alive = λ i. false; next = 0; changed = true; status = disabled }

abbrev with_commissioner : Shared
with_commissioner = record fresh {
  pointer = some 0;
  alive = release none (set_alive (λ i. false) 0 true);
  next = 1;
}

abbrev petitioner : Manager
petitioner = record new_manager { pc = report_petitioning; comm = some 0; worker = init_dtls }

petitioner_lem : Reach new_manager fresh petitioner with_commissioner
unfolding new_manager manager_step
petitioner_lem =
    more
      (more
        (more (more (more (more stay (manages true refl)) (manages true refl)) (manages true refl))
          (manages true refl))
        (manages true refl))
      (manages true refl)

Reach-uses_example :
    (i : ℕ) × (some 0 ≡ some i)
    × (with_commissioner.alive i ≡ true)
    × ((j : ℕ) → with_commissioner.alive j ≡ true → j ≡ i)
Reach-uses_example =
    Reach-uses {m = petitioner} {s = fresh} {s' = with_commissioner} (λ i. refl) petitioner_lem refl

abbrev told_to_stop : Manager
told_to_stop = record petitioner { stop = true }

abbrev second_round : Manager
second_round = record petitioner { locked = false }

abbrev second_wait : Manager
second_wait = record second_round { pc = wait_petition }

reset_race_example :
    (ts : List Turn) × (p : Pair) × (i : ℕ) × (take_turns ts (reset_commissioner new_manager fresh)
      ≡ some p)
    × (uses_commissioner p.new.worker ≡ true)
    × (p.shared.pointer ≡ some i)
    × (p.shared.alive i ≡ false)
reset_race_example = reset_race fresh
