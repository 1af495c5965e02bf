-- ===== src/Receiver/Life/Sound.antt =====
-- What the steps of a receiver of receiver/opcua/receiver.go have asked for and handed on.
use opentelemetry_collector.Common.{
  ℕ, ◌≡◌, ◌≢◌, ◌⊎◌, refl, sym, Bool, false, Bool-cases, inl, inr, ◌==◌, List, [], ◌∷◌, Option, none,
  some, arith,
}
use opentelemetry_collector.Config.{Config}
use opentelemetry_collector.Pdata.{PdataApi}
use opentelemetry_collector.Receiver.{
  LogsReceiver, created, new_logs_receiver, start, cancel, pass_on,
}
use opentelemetry_collector.Receiver.Delivery.{nothing_yet, created-fresh}
use opentelemetry_collector.Receiver.History.{Call, History, IsContiguous, logged}
use opentelemetry_collector.Receiver.Life.{
  Phase, Life, idle, testing, connecting, asking, selecting, returned, handing, at_phase, Step,
  launched, start_failed, test_nil, test_up, test_down, connected, connect_failed, ask, hand_on,
  tick, leave, parent_done, begin_shutdown, end_shutdown, Steps, here, after, Reachable,
}
use mathlib.Core.Path.{subst}
use opentelemetry_collector.Scraper.{Env, Scraper, start_scraper, shutdown_scraper, finish_scrape}
use opentelemetry_collector.Transformer.{Transformer, StdApi, transform_logs}
use opentelemetry_collector.Transformer.Attributes.{count-transform_logs}
use opentelemetry_collector.Value.{Time, OpcuaLogRecord, zero_time}

module _ (pdata : PdataApi) (std : StdApi) (env : Env (pdata.Logs)) where
  open pdata use {Logs, log_record_count}

  -- Of each call that returned records, what `TransformLogs` makes of exactly these has been handed
  -- on, and nothing else, in the order of the calls, the latest first.
  unfoldable pub HandedOn : Transformer → List Call → List Logs → Type 0
  HandedOn t [] consumed = consumed ≡ []
  HandedOn t (c ∷ calls) consumed =
      (((c.result ≡ none) ⊎ (c.result ≡ some [])) × HandedOn t calls consumed)
      ⊎ ((records : List OpcuaLogRecord) × (clock : ℕ → Time) × (rest : List Logs) × (c.result
            ≡ some records)
          × (records ≢ [])
          × (consumed ≡ transform_logs pdata std t clock records ∷ rest)
          × HandedOn t calls rest)

  -- The time ranges follow one another up to where the next one begins, and all is handed on.
  pub record IsSettled (s : Scraper) (h : History Logs) : Type 0 where
    pub contiguous : IsContiguous h.calls s.last_collect_time
    pub handed_on : HandedOn s.transformer h.calls h.consumed

  -- With a result in hand: the last call is the one that gave it, and the rest is settled.
  abbrev InHand : Time → Option (List OpcuaLogRecord) → Scraper → History Logs → Type 0
  InHand end_time result s h =
      (calls : List Call) × (h.calls
        ≡ record { start_time = s.last_collect_time; end_time = end_time; result = result } ∷ calls)
      × IsSettled s (record h { calls = calls })

  abbrev pub IsSoundAt : Phase → Scraper → History Logs → Type 0
  IsSoundAt idle s h = IsSettled s h
  IsSoundAt testing s h = IsSettled s h
  IsSoundAt connecting s h = IsSettled s h
  IsSoundAt asking s h = IsSettled s h
  IsSoundAt selecting s h = IsSettled s h
  IsSoundAt returned s h = IsSettled s h
  IsSoundAt (handing end_time result) s h = InHand end_time result s h

  abbrev LoggedLife : Type 0
  LoggedLife = Life (env.World × History Logs)

  abbrev pub IsSound : LoggedLife → Type 0
  IsSound l = IsSoundAt l.phase l.receiver.scraper l.world.1

  pub scraper-cancel : (r : LogsReceiver) → (cancel r).scraper ≡ r.scraper
  unfolding cancel
  scraper-cancel r = elim (Bool-cases r.has_cancel) [ inl h ↦ simp h | inr h ↦ simp h ]

  pub history-shutdown :
      (s : Scraper) (w : env.World × History Logs)
      → (shutdown_scraper pdata std (logged env) s w).1.1 ≡ w.1
  unfolding shutdown_scraper
  history-shutdown s w = elim (Bool-cases s.has_client) [ inl h ↦ simp h | inr h ↦ simp h ]

  abbrev call_of : Scraper → Time → Option (List OpcuaLogRecord) → Call
  call_of s end_time result = record {
    start_time = s.last_collect_time;
    end_time = end_time;
    result = result;
  }

  abbrev Settled : Scraper × (env.World × History Logs) → Type 0
  Settled (s, w) = IsSettled s w.1

  hand_on_last :
      (s : Scraper) (w : env.World) (calls : List Call) (consumed : List Logs) (end_time : Time)
      (result : Option (List OpcuaLogRecord))
      → IsSettled s (record { calls = calls; consumed = consumed })
      → let h : History Logs = record {
        calls = call_of s end_time result ∷ calls;
        consumed = consumed;
      } in
        Settled (
          pass_on pdata std
            (logged env)
            (finish_scrape pdata std (logged env) s end_time (result, (w, h))))
  unfolding pass_on finish_scrape HandedOn IsContiguous
  hand_on_last s w calls consumed end_time none d = record {
    contiguous = (refl, d.contiguous);
    handed_on = inl (inl refl, d.handed_on);
  }
  hand_on_last s w calls consumed end_time (some []) d =
      rw (count-transform_logs pdata std s.transformer (env.readings w).0 [])
        (record { contiguous = (refl, d.contiguous); handed_on = inl (inr refl, d.handed_on) })
  hand_on_last s w calls consumed end_time (some (r ∷ rs)) d =
      let clock = (env.readings w).0 in
      let some_came : (log_record_count (transform_logs pdata std s.transformer clock (r ∷ rs))
            == 0)
          ≡ false =
        ground (arith, count-transform_logs pdata std s.transformer clock (r ∷ rs)) in
      rw some_came (record {
        contiguous = (refl, d.contiguous);
        handed_on = inr (r ∷ rs, clock, consumed, refl, (λ e. cc), refl, d.handed_on);
      })

  hand_on-IsSettled :
      (s : Scraper) (w : env.World) (h : History Logs) (end_time : Time)
      (result : Option (List OpcuaLogRecord))
      → InHand end_time result s h
      → Settled (
          pass_on pdata std
            (logged env)
            (finish_scrape pdata std (logged env) s end_time (result, (w, h))))
  hand_on-IsSettled s w h end_time result (calls, e, d) =
      subst
        (λ (cs : List Call). Settled (
          pass_on pdata std (logged env) (
            finish_scrape pdata std (logged env) s end_time
              (result, (w, record h { calls = cs })))))
        (sym e) (hand_on_last s w calls h.consumed end_time result d)

  cancelled-IsSoundAt :
      (phase : Phase) (r : LogsReceiver) (h : History Logs)
      → IsSoundAt phase r.scraper h
      → IsSoundAt phase (cancel r).scraper h
  cancelled-IsSoundAt phase r h d = rw (scraper-cancel r) d

  Step-IsSound : (l l' : LoggedLife) → Step pdata std (logged env) l l' → IsSound l → IsSound l'
  unfolding start start_scraper
  Step-IsSound _ _ (launched r w shut e) d = record {
    contiguous = d.contiguous;
    handed_on = d.handed_on;
  }
  Step-IsSound _ _ (start_failed r w shut e) d = record {
    contiguous = d.contiguous;
    handed_on = d.handed_on;
  }
  Step-IsSound _ _ (test_nil r w shut e) d = d
  Step-IsSound _ _ (test_up r w shut e e') d = d
  Step-IsSound _ _ (test_down r w shut e e') d = d
  Step-IsSound _ _ (connected r w shut e) d = d
  Step-IsSound _ _ (connect_failed r w shut e) d = d
  Step-IsSound _ _ (ask r w shut) d = (w.1.calls, refl, d)
  Step-IsSound _ _ (hand_on r w shut end_time result) d =
      hand_on-IsSettled r.scraper w.0 w.1 end_time result d
  Step-IsSound _ _ (tick r w shut) d = d
  Step-IsSound _ _ (leave r w shut e) d = d
  Step-IsSound _ _ (parent_done l) d = d
  Step-IsSound _ _ (begin_shutdown l) d = cancelled-IsSoundAt l.phase l.receiver l.world.1 d
  Step-IsSound _ _ (end_shutdown l) d = rw (history-shutdown l.receiver.scraper l.world) d

  Steps-IsSound : (l l' : LoggedLife) → IsSound l → Steps pdata std (logged env) l l' → IsSound l'
  Steps-IsSound l _ d here = d
  Steps-IsSound l l' d (after m _ p step) = Step-IsSound m l' step (Steps-IsSound l m d p)

  fresh-IsSettled :
      (s : Scraper) → s.last_collect_time ≡ zero_time → IsSettled s (nothing_yet pdata std env)
  unfolding IsContiguous HandedOn
  fresh-IsSettled s h = record { contiguous = h; handed_on = refl }

  -- However `Start`, the operations of the client in the collections, the end of the context and
  -- `Shutdown` interleave, and whatever the client, the consumer and the clock answer: of a receiver
  -- that `newLogsReceiver` made, the time ranges asked for follow one another from the zero time on
  -- with no gap and no overlap, a range that failed being asked for again, and what has been handed
  -- to the consumer is, for each call that returned records, in order, what `TransformLogs` makes of
  -- exactly these, and nothing else. While the result of the last call is in hand, this holds of the
  -- calls before, and the last one begins where the next range has to.
  pub Reachable-IsSound :
      (config : Config) (b : Bool) (r : LogsReceiver) (w : env.World) (l : LoggedLife)
      → new_logs_receiver config b ≡ created r
      → Reachable pdata std (logged env) r (w, nothing_yet pdata std env) l
      → IsSound l
  Reachable-IsSound config b r w l h p =
      Steps-IsSound (at_phase idle r (w, nothing_yet pdata std env) false) l
        (fresh-IsSettled r.scraper (created-fresh pdata std env config b r h)) p
