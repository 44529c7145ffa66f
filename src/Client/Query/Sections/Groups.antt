-- ===== src/Client/Query/Sections/Groups.antt =====
-- The sections of a query leave the group that it was asked for.
use pueue.Base.{
  ◌≡◌, refl, String, Bool, true, false, Option, none, some, ok, err, stuck, or_err, if◌then◌else◌,
  ◌∙◌, Result-cases, inl, inr, ◌==◌, nat_ord, subst,
}
use pueue.Base.Results.{◌>>=◌}
use pueue.Client.Numbers.{codes, parse_usize}
use pueue.Client.Query.{
  Rule, Pair, Pairs, nothing, before, pair, QueryResult, Calendar, Checked, as_rule, as_str,
  into_inner, next, bad_direction, bad_count, push_filter,
}
use pueue.Client.Query.Filters
use pueue.Client.Query.Filters.{operator_and_operand, parse_operand}
use pueue.Client.Query.Sections.{
  column_rules, apply, order_by, limit, limit_direction, apply_section, apply_sections, apply_query,
  is_query,
}

abbrev Keeps : Option String → Checked QueryResult → Type 0
Keeps group (ok r) = r.group ≡ group
Keeps group (err e) = Unit
Keeps group stuck = Unit

then-Keeps :
    {A : Type 0} (group : Option String) (m : Checked A) (f : A → Checked QueryResult)
    → ((a : A) → Keeps group (f a))
    → Keeps group (m >>= f)
then-Keeps group (ok a) f h = h a
then-Keeps group (err e) f h = tt
then-Keeps group stuck f h = tt

apply-Keeps : (section : Pair) (r : QueryResult) → Keeps r.group (apply section r)
unfolding apply
apply-Keeps section r = then-Keeps r.group (next (into_inner section)) _ (λ p.
    then-Keeps r.group (next p.1) _ (λ q.
      then-Keeps r.group (next q.1) _
        (λ c. then-Keeps r.group (column_rules (into_inner c.0)) _ (λ columns. refl))))

order_by-Keeps : (section : Pair) (r : QueryResult) → Keeps r.group (order_by section r)
unfolding order_by
order_by-Keeps section r = then-Keeps r.group (next (into_inner section)) _ (λ p.
    then-Keeps r.group (next p.1) _ (λ q. then-Keeps r.group (next (into_inner q.0)) _ (λ c. refl)))

if-Keeps :
    (group : Option String) (b : Bool) (m m' : Checked QueryResult)
    → Keeps group m
    → Keeps group m'
    → Keeps group (if b then m else m')
if-Keeps group true m m' h h' = h
if-Keeps group false m m' h h' = h'

limit-Keeps : (section : Pair) (r : QueryResult) → Keeps r.group (limit section r)
unfolding limit
limit-Keeps section r = then-Keeps r.group (next (into_inner section)) _ (λ p.
    then-Keeps r.group (or_err bad_direction (limit_direction (as_rule p.0))) _ (λ direction.
      then-Keeps r.group (next p.1) _ (λ q.
        then-Keeps r.group (or_err bad_count (parse_usize (codes (as_str q.0)))) _
          (λ count. if-Keeps r.group (count == 0) _ _ tt refl))))

datetime-Keeps :
    (calendar : Calendar) (section : Pair) (r : QueryResult)
    → Keeps r.group (Filters.datetime calendar section r)
unfolding Filters.datetime push_filter
datetime-Keeps calendar section r = then-Keeps r.group (next (into_inner section)) _ (λ p.
    then-Keeps r.group (next p.1) _ (λ q. then-Keeps r.group (next q.1) _ (λ o.
      then-Keeps r.group (parse_operand calendar (as_rule o.0) (as_str o.0)) _ (λ value. refl))))

label-Keeps : (section : Pair) (r : QueryResult) → Keeps r.group (Filters.label section r)
unfolding Filters.label push_filter
label-Keeps section r = then-Keeps r.group (operator_and_operand section) _ (λ p. refl)

command-Keeps : (section : Pair) (r : QueryResult) → Keeps r.group (Filters.command section r)
unfolding Filters.command push_filter
command-Keeps section r = then-Keeps r.group (operator_and_operand section) _ (λ p. refl)

status-Keeps : (section : Pair) (r : QueryResult) → Keeps r.group (Filters.status section r)
unfolding Filters.status push_filter
status-Keeps section r = then-Keeps r.group (operator_and_operand section) _ (λ p. refl)

apply_section-Keeps :
    (calendar : Calendar) (section : Pair) (r : QueryResult)
    → Keeps r.group (apply_section calendar section r)
unfolding apply_section
apply_section-Keeps calendar (pair Rule.column_selection text inner) r =
    apply-Keeps (pair Rule.column_selection text inner) r
apply_section-Keeps calendar (pair Rule.datetime_filter text inner) r =
    datetime-Keeps calendar (pair Rule.datetime_filter text inner) r
apply_section-Keeps calendar (pair Rule.label_filter text inner) r =
    label-Keeps (pair Rule.label_filter text inner) r
apply_section-Keeps calendar (pair Rule.command_filter text inner) r =
    command-Keeps (pair Rule.command_filter text inner) r
apply_section-Keeps calendar (pair Rule.status_filter text inner) r =
    status-Keeps (pair Rule.status_filter text inner) r
apply_section-Keeps calendar (pair Rule.order_by_condition text inner) r =
    order_by-Keeps (pair Rule.order_by_condition text inner) r
apply_section-Keeps calendar (pair Rule.limit_condition text inner) r =
    limit-Keeps (pair Rule.limit_condition text inner) r
apply_section-Keeps calendar (pair other text inner) r = refl

apply_sections-Keeps :
    (calendar : Calendar) (sections : Pairs) (group : Option String) (r : QueryResult)
    → r.group ≡ group
    → Keeps group (apply_sections calendar sections r)
unfolding apply_sections
apply_sections-Keeps calendar nothing group r e = e
apply_sections-Keeps calendar (before section rest) group r e =
    elim (Result-cases (apply_section calendar section r)) [
      | inl (applied, found) ↦
          let kept : applied.group ≡ r.group =
            subst (λ m. Keeps r.group m) found (apply_section-Keeps calendar section r) in
          rw (found, apply_sections) (apply_sections-Keeps calendar rest group applied (kept ∙ e))
      | inr (inl (x, failed)) ↦ rw (failed, apply_sections) tt
      | inr (inr lost) ↦ rw (lost, apply_sections) tt
    ]

apply_query-Keeps :
    (calendar : Calendar) (parsed : Option Pairs) (group : Option String)
    → Keeps group (apply_query calendar parsed group)
unfolding apply_query
apply_query-Keeps calendar none group = tt
apply_query-Keeps calendar (some nothing) group = refl
apply_query-Keeps calendar (some (before p rest)) group =
    if-Keeps group (is_query (as_rule p)) _ _
      (apply_sections-Keeps calendar (into_inner p) group _ refl) tt

pub group-apply_query :
    (calendar : Calendar) (parsed : Option Pairs) (group : Option String) (r : QueryResult)
    → apply_query calendar parsed group ≡ ok r
    → r.group ≡ group
group-apply_query calendar parsed group r e =
    subst (λ m. Keeps group m) e (apply_query-Keeps calendar parsed group)
