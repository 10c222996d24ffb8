-- ===== src/Requests/Lossless.antt =====
-- core/crates/client-evm/src/kernel/pending_requests.rs: what `retry_expired` makes of the requests in flight.
use armchair_analyst.Prelude.{
  nat_eq, ◌+◌, ◌^◌, ◌<◌, ◌≤◌, ◌≡◌, ◌∙◌, ap, refl, sym, subst, true, false, Bool, Option, none, some,
  inl, inr, List, [], ◌∷◌, length, length-append, arith, Bool-cases,
}
use armchair_analyst.Requests.Tick.{Tick, elapsed_since, is_expired_since}
use armchair_analyst.Requests.Pending.{
  PendingRequests, AnyRequestId, AnyIssuedRequest, expired_ids, retry, retry_all, retry_expired,
  extend_effects, header_store, log_store, pool_metadata_store, token_metadata_store,
  pool_data_store, logs_range_store, canonical_header_store,
}
use armchair_analyst.Requests.Ids.{Sound}
use armchair_analyst.Requests.Entered.{
  AnyRequest, new_id, new_id_lem, put_last, put-Sound, AllTracked,
}
use armchair_analyst.Requests.Retried.{drop_id, drop_id-Sound, drop_id_last}
use armchair_analyst.Requests.Held.{held, retry-cases, held_entered, held_dropped, held-drop_id}
use armchair_analyst.Requests.Counts.{count_held, count_held-drop, count_held-put}
use armchair_analyst.Requests.Listed.{Among, held_expired}
use armchair_analyst.Requests.Rounds.{retry_all-Running, expired_ids-AllUnder}

just_sent : (tick : Tick) → tick < 2 ^ 64 → is_expired_since tick tick ≡ false
unfolding is_expired_since elapsed_since
just_sent tick h = ground (arith, h)

-- How a run of retries stands, with the ids that it has still to take out: the same requests are in flight, and
-- those that have expired are under these ids.
record Halfway (tick : Tick) (start : PendingRequests) (ids : List AnyRequestId)
    (s : PendingRequests) : Type 0 where
  sound : Sound s
  same : (p : AnyRequest → Bool) → count_held p s ≡ count_held p start
  listed :
      (x : AnyRequestId) (r : AnyRequest × Tick)
      → held s x ≡ some r
      → is_expired_since tick r.1 ≡ true
      → Among x ids

module _ (tick : Tick) (now : tick < 2 ^ 64) (start : PendingRequests) where
  retry-Halfway :
      (id : AnyRequestId) (ids : List AnyRequestId) (s : PendingRequests)
      → s.last_request_id + 1 < 2 ^ 64
      → Halfway tick start (id ∷ ids) s
      → Halfway tick start ids (retry s id tick).0
        × ((retry s id tick).0.last_request_id ≤ s.last_request_id + 1)
  retry-Halfway id ids s room h = elim (retry-cases s id tick) [
    | inl (absent, e) ↦ rw e (
      record {
        sound = h.sound;
        same = h.same;
        listed = λ x r f old.
            elsewhere x (h.listed x r f old)
              λ here. absurd (ground (arith, subst (λ i. held s i ≡ none) here absent, f));
      },
      omega arith,
    )
    | inr (q, sent, found, e) ↦
        let new = new_id s in
        let t = drop_id id s in
        let fresh = new_id_lem s room in
        let later : t.last_request_id < new = omega (arith, fresh, drop_id_last id s) in
        let sound = drop_id-Sound s id h.sound in
        rw e (
          record {
            sound = put-Sound t q new tick sound later;
            same = λ p.
                count_held-put p t new q tick sound later
                ∙ sym (count_held-drop p s id q sent h.sound found)
                ∙ h.same p;
            listed = λ x r f old. elim (held_entered t new q tick x r f) [
              | inl sent_now ↦
                  absurd
                    (ground (arith, old, just_sent tick now, ap (is_expired_since tick) sent_now))
              | inr before ↦ elsewhere x (h.listed x r (held_dropped s id x r before) old) λ here.
                  absurd
                    (ground (arith, subst (λ i. held t i ≡ none) here (held-drop_id s id), before))
            ];
          },
          omega (arith, put_last new q tick t, fresh),
        )
  ]
    where
      elsewhere : (x : AnyRequestId) → Among x (id ∷ ids) → (id ≡ x → Among x ids) → Among x ids
      elsewhere x (inl here) f = f here
      elsewhere x (inr there) f = there

  retry_all-Halfway :
      (ids : List AnyRequestId) (s : PendingRequests) (effects : List AnyIssuedRequest)
      → s.last_request_id + length ids < 2 ^ 64
      → Halfway tick start ids s
      → Halfway tick start [] (retry_all ids tick s effects).0
  unfolding retry_all
  retry_all-Halfway [] s effects room h = h
  retry_all-Halfway (id ∷ ids) s effects room h =
      let (h', one) = retry-Halfway id ids s (omega (arith, room)) h in
      retry_all-Halfway ids (retry s id tick).0 (extend_effects effects (retry s id tick).1)
        (omega (arith, one, room)) h'

extended_length :
    (effects : List AnyIssuedRequest) (issued : Option AnyIssuedRequest)
    → length (extend_effects effects issued) ≤ length effects + 1
extended_length effects none = omega arith
extended_length effects (some e) = omega (arith, length-append effects (e ∷ []))

retry_all-length :
    (ids : List AnyRequestId) (tick : Tick) (s : PendingRequests) (effects : List AnyIssuedRequest)
    → length (retry_all ids tick s effects).1 ≤ length effects + length ids
unfolding retry_all
retry_all-length [] tick s effects = omega arith
retry_all-length (id ∷ ids) tick s effects = omega (
  arith,
  extended_length effects (retry s id tick).1,
  retry_all-length ids tick (retry s id tick).0 (extend_effects effects (retry s id tick).1),
)

retried_few :
    (ids : List AnyRequestId) (tick : Tick) (s : PendingRequests)
    → length (retry_all ids tick s []).1 ≤ length ids
retried_few ids tick s = omega (arith, retry_all-length ids tick s [])

-- What a round of retries promises.
pub record Lossless (tick : Tick) (s s' : PendingRequests) (effects : List AnyIssuedRequest)
    : Type 0 where
  pub sound : Sound s'
  pub same : (p : AnyRequest → Bool) → count_held p s' ≡ count_held p s
  pub renewed :
      (x : AnyRequestId) (q : AnyRequest) (sent : Tick)
      → held s' x ≡ some (q, sent)
      → is_expired_since tick sent ≡ false
  pub tracked : AllTracked s' effects
  pub few : length effects ≤ length (expired_ids s tick)

-- The retries of a tick lose no request and duplicate none: if the ids are distinct and issued, their 64-bit
-- sequence has room for the retries and the tick is one of the 64-bit clock, then every test of requests passes
-- as many of those in flight after as before, whatever is in flight after has not expired, under distinct ids
-- that were issued, each effect is in flight under its id with its payload, and there are no more effects than
-- ids that had expired.
pub retry_expired-Lossless :
    (s : PendingRequests) (tick : Tick)
    → Sound s
    → tick < 2 ^ 64
    → s.last_request_id + length (expired_ids s tick) < 2 ^ 64
    → let (s', effects) = retry_expired s tick in Lossless tick s s' effects
unfolding retry_expired
retry_expired-Lossless s tick k now room =
    let ids = expired_ids s tick in
    let h = retry_all-Halfway tick now s ids s [] room (record {
      sound = k;
      same = λ p. refl;
      listed = λ x r f old. held_expired s tick x r f old;
    }) in
    let r =
      retry_all-Running s.last_request_id ids tick s [] (expired_ids-AllUnder s tick k) room
        (record { sound = k; tracked = tt; above = tt; grown = omega arith }) in
    record {
      sound = h.sound;
      same = h.same;
      renewed = λ x q sent f. elim (Bool-cases (is_expired_since tick sent)) [
        | inl old ↦ absurd (h.listed x (q, sent) f old)
        | inr young ↦ young
      ];
      tracked = r.tracked;
      few = retried_few ids tick s;
    }
