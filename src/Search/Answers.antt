-- ===== src/Search/Answers.antt =====
-- client/src/components/SearchModal.tsx: answers that come in another order than their requests, and a
-- channel whose group is not loaded.
use dfchat.Common.{String, true, false, none, some, List, [], ◌≡◌, arith}
use dfchat.View.Text.{trim}
use dfchat.Markdown.Inline.{is_blank}
use dfchat.Search.{SearchHit, Search, debounce, set_q, on_timer, on_hits}

abbrev fresh : Search
fresh = record {
  is_open = true;
  q = "";
  hits = [];
  busy = false;
  active = some 0;
  timer = none;
  in_flight = [];
}

-- Two searches whose answers come the other way round.
abbrev pub crossed : (a b : String) (of_a of_b : List SearchHit) → Search
crossed a b of_a of_b =
    let asked = on_timer (set_q b (on_timer (set_q a fresh))) in
    on_hits 0 (some of_a) (on_hits 1 (some of_b) asked)

-- The results of the first text stand under the second.
crossed_lem :
    (a b : String) (of_a of_b : List SearchHit)
    → is_blank (trim a) ≡ false
    → is_blank (trim b) ≡ false
    → let s = crossed a b of_a of_b in
      (s.q ≡ b) × (s.hits ≡ of_a) × (s.busy ≡ false) × (s.in_flight ≡ [])
unfolding debounce set_q on_timer on_hits
crossed_lem a b of_a of_b ha hb = ground (arith, ha, hb)
