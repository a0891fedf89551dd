-- ===== src/Stdio/Keeps.antt =====
-- Every step of `_StdoutWriter` keeps its order.
use mathlib.Core.Path.{subst}
use wire_rpc.Prelude.{
  ℕ, ◌≡◌, refl, ap, ◌∙◌, sym, Bool, true, false, not, Option, none, some, List, [], ◌∷◌, ◌++◌,
  append_assoc, append-nil, take, drop, if_both, Bool-cases, inl, inr,
}
use wire_rpc.Envelope.{Bytes}
use wire_rpc.Stdio.{
  Hand, Writer, Outcome, write, close, take_first, write_out, settle, go_on, handle, run_step,
  settle_first, run_callback, result_at, conclude, drain_for, drain, Step, Reach, here, next,
}
use wire_rpc.Stdio.Parts.{
  joined, payloads_of, all_results, held, IsFlushed, Flushed, payloads_of-append,
  all_results-append, joined-append, take-drop, append_more, fine_of, Partly-fine, Partly-take,
  Partly-settle,
}

write-Flushed : (payload : Bytes) (w : Writer) → Flushed w → Flushed (write payload w).1
unfolding write
write-Flushed payload w v =
    if_both (λ (r : Outcome × Writer). Flushed r.1) w.closing (λ _. v)
      (λ _. record {
        fine = v.fine;
        lost = v.lost;
        part = v.part;
        order =
            ap (λ l. l ++ payload ∷ []) v.order
            ∙ append_more v.fine v.lost (held w.hand ++ payloads_of w.queue) (payload ∷ [])
            ∙ ap (λ l. v.fine ++ (v.lost ++ l))
                (append_assoc (held w.hand) (payloads_of w.queue) (payload ∷ [])
                  ∙ ap (λ l. held w.hand ++ l)
                      (sym (payloads_of-append w.queue (some payload ∷ []))));
        results = v.results;
        file = v.file;
        failure = v.failure;
      })

close-Flushed : (w : Writer) → Flushed w → Flushed (close w)
unfolding close
close-Flushed w v =
    if_both Flushed w.closing (λ _. v)
      (λ _. record {
        fine = v.fine;
        lost = v.lost;
        part = v.part;
        order =
            v.order
            ∙ ap (λ l. v.fine ++ (v.lost ++ (held w.hand ++ l)))
                (sym (payloads_of-append w.queue (none ∷ []) ∙ append-nil (payloads_of w.queue)));
        results = v.results;
        file = v.file;
        failure = v.failure;
      })

abbrev HandFlushed : Writer → Option Hand → Type 0
HandFlushed w hand = IsFlushed w.queue w.error hand w.posted w.settled w.written w.output

take_first-Flushed :
    (items : List (Option Bytes)) (w : Writer)
    → w.queue ≡ items
    → Flushed w
    → HandFlushed w none
    → Flushed (take_first items w)
take_first-Flushed [] w taken same v = same
take_first-Flushed (none ∷ rest) w taken same v = record {
  fine = same.fine;
  lost = same.lost;
  part = same.part;
  order = same.order ∙ ap (λ l. same.fine ++ (same.lost ++ (held w.hand ++ payloads_of l))) taken;
  results = same.results;
  file = same.file;
  failure = same.failure;
}
take_first-Flushed (some payload ∷ rest) w taken same v = record {
  fine = v.fine;
  lost = v.lost;
  part = v.part;
  order = v.order ∙ ap (λ l. v.fine ++ (v.lost ++ payloads_of l)) taken;
  results = v.results;
  file = v.file;
  failure = Partly-take w.error v.lost v.part payload v.failure;
}

write_out-Flushed :
    (w : Writer) (h : Hand) (wrote : Option ℕ)
    → w.hand ≡ some h
    → HandFlushed w (some h)
    → w.error ≡ false
    → Flushed (write_out wrote h w)
write_out-Flushed w h (some n) same v e =
    let (none_lost, in_hand) = fine_of w.error v.lost v.part (some h) e v.failure in
    record {
      fine = v.fine;
      lost = v.lost;
      part = v.part ++ take n h.view;
      order = v.order;
      results = v.results;
      file =
          ap (λ l. l ++ take n h.view) v.file ∙ append_assoc (joined v.fine) v.part (take n h.view);
      failure =
          Partly-fine w.error v.lost v.part v.lost (some (record h { view = drop n h.view }))
            (v.part ++ take n h.view) e none_lost
            (append_assoc v.part (take n h.view) (drop n h.view)
              ∙ ap (λ l. v.part ++ l) (take-drop n h.view)
              ∙ in_hand);
    }
write_out-Flushed w h none same v e =
    let (none_lost, in_hand) = fine_of w.error v.lost v.part (some h) e v.failure in
    record {
      fine = v.fine;
      lost = v.lost;
      part = v.part;
      order = v.order ∙ ap (λ x. v.fine ++ (v.lost ++ (held x ++ payloads_of w.queue))) (sym same);
      results = v.results;
      file = v.file;
      failure = (
        h.data_,
        [],
        h.view,
        ap (λ x. v.lost ++ held x) same ∙ ap (λ l. l ++ h.data_ ∷ []) none_lost,
        in_hand,
      );
    }

module _ (w : Writer) (h : Hand) (same : w.hand ≡ some h) (v : HandFlushed w (some h)) where
  settle_fine-Flushed : w.error ≡ false → h.view ≡ [] → Flushed (settle w)
  settle_fine-Flushed e all_out =
      let (none_lost, in_hand) = fine_of w.error v.lost v.part (some h) e v.failure in
      let is_part = sym (append-nil v.part) ∙ ap (λ l. v.part ++ l) (sym all_out) ∙ in_hand in
      record {
        fine = v.fine ++ h.data_ ∷ [];
        lost = [];
        part = [];
        order =
            v.order
            ∙ ap (λ l. v.fine ++ (l ++ h.data_ ∷ payloads_of w.queue)) none_lost
            ∙ sym (append_assoc v.fine (h.data_ ∷ []) (payloads_of w.queue));
        results =
            sym (append_assoc w.settled w.posted (not w.error ∷ []))
            ∙ ap (λ l. l ++ not w.error ∷ [])
                (v.results
                  ∙ ap (λ l. all_results true v.fine ++ all_results false l) none_lost
                  ∙ append-nil (all_results true v.fine))
            ∙ ap (λ b. all_results true v.fine ++ not b ∷ []) e
            ∙ sym (all_results-append true v.fine (h.data_ ∷ []))
            ∙ sym (append-nil (all_results true (v.fine ++ h.data_ ∷ [])));
        file =
            v.file
            ∙ ap (λ l. joined v.fine ++ l) (is_part ∙ sym (append-nil h.data_))
            ∙ sym (joined-append v.fine (h.data_ ∷ []))
            ∙ sym (append-nil (joined (v.fine ++ h.data_ ∷ [])));
        failure = Partly-fine w.error v.lost v.part [] none [] e refl refl;
      }

  settle_lost-Flushed : w.error ≡ true → Flushed (settle w)
  settle_lost-Flushed e = record {
    fine = v.fine;
    lost = v.lost ++ h.data_ ∷ [];
    part = v.part;
    order =
        v.order
        ∙ ap (λ l. v.fine ++ l) (sym (append_assoc v.lost (h.data_ ∷ []) (payloads_of w.queue)));
    results =
        sym (append_assoc w.settled w.posted (not w.error ∷ []))
        ∙ ap (λ l. l ++ not w.error ∷ []) v.results
        ∙ ap (λ b. (all_results true v.fine ++ all_results false v.lost) ++ not b ∷ []) e
        ∙ append_assoc (all_results true v.fine) (all_results false v.lost) (false ∷ [])
        ∙ ap (λ l. all_results true v.fine ++ l)
            (sym (all_results-append false v.lost (h.data_ ∷ [])));
    file = v.file;
    failure = Partly-settle w.error v.lost v.part h e v.failure;
  }

  go_on-Flushed : (wrote : Option ℕ) (view : Bytes) → h.view ≡ view → Flushed (go_on wrote h view w)
  go_on-Flushed wrote [] e = elim (Bool-cases w.error) [
    | inl broken ↦ settle_lost-Flushed broken
    | inr unbroken ↦ settle_fine-Flushed unbroken e
  ]
  go_on-Flushed wrote (byte ∷ view) e =
      if_both Flushed w.error settle_lost-Flushed (write_out-Flushed w h wrote same v)

handle-Flushed :
    (wrote : Option ℕ) (hand : Option Hand) (w : Writer)
    → w.hand ≡ hand
    → Flushed w
    → Flushed (handle wrote hand w)
handle-Flushed wrote none w e v = take_first-Flushed w.queue w refl v (subst (HandFlushed w) e v)
handle-Flushed wrote (some h) w e v =
    go_on-Flushed w h e (subst (HandFlushed w) e v) wrote h.view refl

settle_first-Flushed :
    (posted : List Bool) (w : Writer)
    → w.posted ≡ posted
    → Flushed w
    → Flushed (settle_first posted w)
settle_first-Flushed [] w e v = v
settle_first-Flushed (b ∷ posted) w e v = record {
  fine = v.fine;
  lost = v.lost;
  part = v.part;
  order = v.order;
  results = append_assoc w.settled (b ∷ []) posted ∙ ap (λ l. w.settled ++ l) (sym e) ∙ v.results;
  file = v.file;
  failure = v.failure;
}

conclude-Flushed : (o : Option Bool) (w : Writer) → Flushed w → Flushed (conclude o w).1
conclude-Flushed none w v = v
conclude-Flushed (some true) w v = v
conclude-Flushed (some false) w v = v

drain_for-Flushed : (last : Option ℕ) (w : Writer) → Flushed w → Flushed (drain_for last w).1
drain_for-Flushed none w v = v
drain_for-Flushed (some n) w v = conclude-Flushed (result_at n w.settled) w v

step-Flushed : {w t : Writer} → Step w t → Flushed w → Flushed t
unfolding run_step run_callback drain
step-Flushed (Step.writes w payload) v = write-Flushed payload w v
step-Flushed (Step.closes w) v = close-Flushed w v
step-Flushed (Step.runs w wrote running) v = handle-Flushed wrote w.hand w refl v
step-Flushed (Step.calls_back w) v = settle_first-Flushed w.posted w refl v
step-Flushed (Step.drains w last) v = drain_for-Flushed last w v

pub Reach-Flushed_from : {start w : Writer} → Reach start w → Flushed start → Flushed w
Reach-Flushed_from here v = v
Reach-Flushed_from (next r step) v = step-Flushed step (Reach-Flushed_from r v)
