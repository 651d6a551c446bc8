-- ===== src/Incident/Transitions.antt =====
-- What the handlers of services/incident/internal/handler/handler.go do to statuses: the path of
-- `PatchStatus` through services/incident/internal/store/store.go.
use sreon_call.Prelude.{
  ◌≡◌, refl, sym, ap, ◌∙◌, ◌⊎◌, inl, inr, subst, String, str_eq, eq_iff, ℕ, List, [], ◌∷◌, Bool,
  true, ◌&&◌, Option, none, some, arith, Result, ok, err, update_where, Bool-cases, if◌then◌else◌,
}
use sreon_call.Effects.{
  Err, not_found, conflict, failed, cancelled, dropped, Env, Io, continue, call, try, gets, with_tx,
  ◌>>=◌,
}
use sreon_call.Effects.Evolves.{
  Evolves, Preorder, Evolves-call, Evolves-try, Evolves-gets, evolves_rules,
}
use sreon_call.Effects.Cases.{call-cases, with_tx-cases}
use sreon_call.Incident.Types.{Incident, HistoryEntry, IncidentEvent, Tables}
use sreon_call.Incident.StateMachine.{allowed, validate}
use sreon_call.Incident.Incidents.{
  append_history, append_if, get_incident, get_labels, load_labels, select_incident, in_status,
  set_status, guarded_update, or_conflict, transition_body, transition_status,
}
use sreon_call.Incident.Consumer.{send}
use sreon_call.Incident.Handler.{
  invalid_body, answer_transition, change_status, patch_read, patch_status,
}

-- Each incident is as it was or has moved along one transition that the state machine allows.
abbrev pub Moves : List Incident → List Incident → Type 0
Moves [] [] = Unit
Moves [] (t ∷ ts) = ⊥
Moves (r ∷ rs) [] = ⊥
Moves (r ∷ rs) (t ∷ ts) = ((t ≡ r) ⊎ (allowed r.status t.status ≡ true)) × Moves rs ts

abbrev Moved : Tables → Tables → Type 0
Moved s t = Moves s.incidents t.incidents

abbrev pub Kept : Tables → Tables → Type 0
Kept s t = t.incidents ≡ s.incidents

pub Kept-Preorder : Preorder Kept
Kept-Preorder = record { same = λ s. refl; chain = λ s t u a b. b ∙ a }

Moves-refl : (rs : List Incident) → Moves rs rs
Moves-refl [] = tt
Moves-refl (r ∷ rs) = (inl refl, Moves-refl rs)

module _ {A B : Type 0} (m : Io Tables A) (f : A → Io Tables B) where
  Moved-bind_left : Evolves Moved m → ((a : A) → Evolves Kept (f a)) → Evolves Moved (m >>= f)
  unfolding ◌>>=◌
  Moved-bind_left hm hf = record {
    at = λ e. subst (λ l. Moves e.state.incidents l) (sym (go (m e).0 (m e).1)) (hm.at e);
  }
    where
      go : (r : Result Err A) (e : Env Tables) → Kept e.state (continue r f e).1.state
      go (ok a) e = (hf a).at e
      go (err x) e = refl

  Moved-bind_right : Evolves Kept m → ((a : A) → Evolves Moved (f a)) → Evolves Moved (m >>= f)
  unfolding ◌>>=◌
  Moved-bind_right hm hf = record {
    at = λ e. subst (λ l. Moves l ((m >>= f) e).1.state.incidents) (hm.at e) (go (m e).0 (m e).1);
  }
    where
      go : (r : Result Err A) (e : Env Tables) → Moved e.state (continue r f e).1.state
      go (ok a) e = (hf a).at e
      go (err x) e = Moves-refl e.state.incidents

-- What keeps every incident moves none.
Moved-of_Kept : {A : Type 0} (m : Io Tables A) → Evolves Kept m → Evolves Moved m
Moved-of_Kept m h = record {
  at = λ e. subst (λ l. Moves e.state.incidents l) (sym (h.at e)) (Moves-refl e.state.incidents);
}

Moved-with_tx : {A : Type 0} (m : Io Tables A) → Evolves Moved m → Evolves Moved (with_tx m)
Moved-with_tx m h = record {
  at = λ e. elim (with_tx-cases m e) [
    | inl (x, _, same) ↦
        subst (λ (s : Tables). Moves e.state.incidents s.incidents) (sym same)
          (Moves-refl e.state.incidents)
    | inr (a, before, same, _, _, after) ↦
        subst (λ (s : Tables). Moves e.state.incidents s.incidents) (sym after)
          (subst (λ (s : Tables). Moves s.incidents (m before).1.state.incidents) same
            (h.at before))
  ];
}

pub append_history-Kept : (h : HistoryEntry) → Evolves Kept (append_history h)
unfolding append_history
append_history-Kept h = Evolves-call Kept-Preorder _ (λ s. ground arith)

append_if-Kept : (h : Option HistoryEntry) (id : String) → Evolves Kept (append_if h id)
append_if-Kept none id = search (evolves_rules, Kept-Preorder)
append_if-Kept (some h) id = append_history-Kept _

get_labels-Kept : (id : String) → Evolves Kept (get_labels id)
unfolding get_labels
get_labels-Kept id = Evolves-call Kept-Preorder _ (λ s. refl)

load_labels-Kept : (inc : Incident) → Evolves Kept (load_labels inc)
unfolding load_labels
load_labels-Kept inc = search (evolves_rules, Kept-Preorder, get_labels-Kept)

select_incident-Kept : (tenant_id id : String) → Evolves Kept (select_incident tenant_id id)
unfolding select_incident
select_incident-Kept tenant_id id = Evolves-call Kept-Preorder _ (λ s. refl)

pub get_incident-Kept : (tenant_id id : String) → Evolves Kept (get_incident tenant_id id)
unfolding get_incident
get_incident-Kept tenant_id id =
    search (evolves_rules, Kept-Preorder, load_labels-Kept, select_incident-Kept)

or_conflict-Kept : (r : Result Err Incident) → Evolves Kept (or_conflict r)
or_conflict-Kept (ok inc) = search (evolves_rules, Kept-Preorder)
or_conflict-Kept (err not_found) = search (evolves_rules, Kept-Preorder)
or_conflict-Kept (err conflict) = search (evolves_rules, Kept-Preorder)
or_conflict-Kept (err failed) = search (evolves_rules, Kept-Preorder)
or_conflict-Kept (err dropped) = search (evolves_rules, Kept-Preorder)
or_conflict-Kept (err cancelled) = search (evolves_rules, Kept-Preorder)

pub send-Kept : (ev : IncidentEvent) → Evolves Kept (send ev)
unfolding send
send-Kept ev = Evolves-call Kept-Preorder _ (λ s. refl)

answer_transition-Kept :
    (tenant_slug : String) (r : Result Err Incident)
    → Evolves Kept (answer_transition tenant_slug r)
unfolding answer_transition
answer_transition-Kept tenant_slug (ok inc) = search (evolves_rules, Kept-Preorder, send-Kept)
answer_transition-Kept tenant_slug (err not_found) = search (evolves_rules, Kept-Preorder)
answer_transition-Kept tenant_slug (err conflict) = search (evolves_rules, Kept-Preorder)
answer_transition-Kept tenant_slug (err failed) = search (evolves_rules, Kept-Preorder)
answer_transition-Kept tenant_slug (err dropped) = search (evolves_rules, Kept-Preorder)
answer_transition-Kept tenant_slug (err cancelled) = search (evolves_rules, Kept-Preorder)

set_status-status :
    (status author_id : String) (now : ℕ) (r : Incident)
    → (set_status status author_id now r).status ≡ status
set_status-status status author_id now r = ground arith

in_status-status :
    (tenant_id id expected : String) (r : Incident)
    → in_status tenant_id id expected r ≡ true
    → r.status ≡ expected
in_status-status tenant_id id expected r h =
    (eq_iff r.status expected).0
      (last (str_eq r.id id && str_eq r.tenant_id tenant_id) (str_eq r.status expected) h)
  where
    last : (a b : Bool) → (a && b) ≡ true → b ≡ true
    last a b k = ground arith

-- The rows that the guard lets through move from the status that was read.
update-Moves :
    (tenant_id id status expected author_id : String) (now : ℕ) (rs : List Incident)
    → allowed expected status ≡ true
    → Moves rs (update_where (in_status tenant_id id expected) (set_status status author_id now) rs)
update-Moves tenant_id id status expected author_id now [] h = tt
update-Moves tenant_id id status expected author_id now (r ∷ rs) h =
    (head, update-Moves tenant_id id status expected author_id now rs h)
  where
    written : Bool → Incident
    written b = if b then set_status status author_id now r else r

    head :
        (written (in_status tenant_id id expected r) ≡ r)
        ⊎ (allowed r.status (written (in_status tenant_id id expected r)).status ≡ true)
    head = elim (Bool-cases (in_status tenant_id id expected r)) [
      | inl hit ↦ inr (
          ap (λ b. allowed r.status (written b).status) hit
          ∙ ap (allowed r.status) (set_status-status status author_id now r)
          ∙ ap (λ x. allowed x status) (in_status-status tenant_id id expected r hit)
          ∙ h)
      | inr miss ↦ inl (ap written miss)
    ]

guarded_update-Moved :
    (tenant_id id status expected author_id : String) (now : ℕ)
    → allowed expected status ≡ true
    → Evolves Moved (try (call (guarded_update tenant_id id status expected author_id now)))
unfolding try
guarded_update-Moved tenant_id id status expected author_id now h = record {
  at = λ e. elim (call-cases (guarded_update tenant_id id status expected author_id now) e) [
    | inl (_, same) ↦
        subst (λ (s : Tables). Moves e.state.incidents s.incidents) (sym same)
          (Moves-refl e.state.incidents)
    | inr (_, after) ↦
        subst (λ (s : Tables). Moves e.state.incidents s.incidents) (sym after)
          (update-Moves tenant_id id status expected author_id now e.state.incidents h)
  ];
}

transition_body-Moved :
    (tenant_id id status expected author_id : String) (hist : Option HistoryEntry) (now : ℕ)
    → allowed expected status ≡ true
    → Evolves Moved (transition_body tenant_id id status expected author_id hist now)
unfolding transition_body
transition_body-Moved tenant_id id status expected author_id hist now h =
    Moved-bind_left (try (call (guarded_update tenant_id id status expected author_id now))) _
      (guarded_update-Moved tenant_id id status expected author_id now h)
      λ r. search (evolves_rules, Kept-Preorder, or_conflict-Kept, load_labels-Kept, append_if-Kept)

transition_status-Moved :
    (tenant_id id status expected author_id : String) (hist : Option HistoryEntry)
    → allowed expected status ≡ true
    → Evolves Moved (transition_status tenant_id id status expected author_id hist)
unfolding transition_status
transition_status-Moved tenant_id id status expected author_id hist h =
    Moved-bind_right (gets (λ s. s.clock)) _ (Evolves-gets Kept-Preorder _) λ now.
      Moved-with_tx _ (transition_body-Moved tenant_id id status expected author_id hist now h)

change_status-Moved :
    (tenant_id tenant_slug id caller old_status new_status : String)
    → allowed old_status new_status ≡ true
    → Evolves Moved (change_status tenant_id tenant_slug id caller old_status new_status)
unfolding change_status try
change_status-Moved tenant_id tenant_slug id caller old_status new_status h =
    Moved-bind_left (try (transition_status tenant_id id new_status old_status caller _)) _
      (record {
        at = λ e. (transition_status-Moved tenant_id id new_status old_status caller _ h).at e;
      })
      (answer_transition-Kept tenant_slug)

patch_read-Moved :
    (tenant_id tenant_slug id caller status : String) (r : Result Err Incident)
    → Evolves Moved (patch_read tenant_id tenant_slug id caller status r)
unfolding patch_read validate
patch_read-Moved tenant_id tenant_slug id caller status (err not_found) =
    Moved-of_Kept _ (search (evolves_rules, Kept-Preorder))
patch_read-Moved tenant_id tenant_slug id caller status (err conflict) =
    Moved-of_Kept _ (search (evolves_rules, Kept-Preorder))
patch_read-Moved tenant_id tenant_slug id caller status (err failed) =
    Moved-of_Kept _ (search (evolves_rules, Kept-Preorder))
patch_read-Moved tenant_id tenant_slug id caller status (err dropped) =
    Moved-of_Kept _ (search (evolves_rules, Kept-Preorder))
patch_read-Moved tenant_id tenant_slug id caller status (ok inc) =
    elim (Bool-cases (allowed inc.status status)) [
      | inl fits ↦
          rw fits (change_status-Moved tenant_id tenant_slug id caller inc.status status fits)
      | inr refused ↦ rw refused (Moved-of_Kept _ (search (evolves_rules, Kept-Preorder)))
    ]
patch_read-Moved tenant_id tenant_slug id caller status (err cancelled) =
    Moved-of_Kept _ (search (evolves_rules, Kept-Preorder))

invalid_body-Moved : Evolves Moved invalid_body
invalid_body-Moved = Moved-of_Kept _ (search (evolves_rules, Kept-Preorder))

-- Whatever is asked and whatever fails, a request to change a status leaves each incident as it was
-- or moves it along one transition that the state machine allows, from the status that it has when it
-- is written, which other requests may have changed since it was read.
pub patch_status-Moves :
    (tenant_id tenant_slug id caller : String) (body : Option String) (e : Env Tables)
    → Moves e.state.incidents
        (patch_status tenant_id tenant_slug id caller body e).1.state.incidents
unfolding patch_status
patch_status-Moves tenant_id tenant_slug id caller none e = invalid_body-Moved.at e
patch_status-Moves tenant_id tenant_slug id caller (some status) e =
    elim (Bool-cases (str_eq status "")) [
      | inl empty ↦ rw empty (invalid_body-Moved.at e)
      | inr full ↦ rw full (
          (Moved-bind_right (try (get_incident tenant_id id)) _
              (Evolves-try Kept-Preorder _ (get_incident-Kept tenant_id id))
              (patch_read-Moved tenant_id tenant_slug id caller status)).at
            e)
    ]
