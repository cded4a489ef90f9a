-- ===== src/Telemetry/Notice/Laws.antt =====
-- When the first-run notice is shown (src/telemetry/notice.rs).
use cli_framework.Prelude.{
  ◌≡◌, ◌≢◌, ◌<◌, ◌⊎◌, ◌↔◌, refl, ap, sym, ◌∙◌, subst, some-inj, inl, inr, String, Bool, true, false,
  not, Option, none, some, is_some, if◌then◌else◌, arith, Bool-cases,
}
use cli_framework.Telemetry.Axes.{
  TelemetryLevel, off, usage, diagnostic, debug, rank, is_end_user, eq_level, le_level,
}
use cli_framework.Telemetry.Policy.{TelemetryPolicy}
use cli_framework.Telemetry.Notice.{
  Surface, is_human, is_config_file, NoticeDecision, show, skip, announced, notice_text,
  notice_decision, service_deployment, kill_switch, not_a_human_surface, not_interactive,
  already_shown, configured_locally,
}

-- The level has not been announced: nothing was at `off`, and nothing as high above it, where it is
-- not the person's own choice.
abbrev pub IsNews : TelemetryPolicy → Option TelemetryLevel → Type 0
IsNews policy notice_shown =
    ((policy.level ≡ off) × (notice_shown ≡ none))
    ⊎ ((policy.level ≢ off)
        × ((is_config_file policy.level_source ≡ false)
            × ((shown : TelemetryLevel)
                → notice_shown ≡ some shown
                → rank shown < rank policy.level)))

-- The tests before the level is looked at.
gates :
    (user killed human terminal : Bool) (inner : NoticeDecision) (message : String)
    (level : TelemetryLevel)
    → ((if not user
          then skip service_deployment
          else if killed
          then skip kill_switch
          else if not human
          then skip not_a_human_surface
          else if not terminal
          then skip not_interactive
          else inner)
        ≡ show message level)
      ↔ ((user ≡ true)
          × ((killed ≡ false)
              × ((human ≡ true) × ((terminal ≡ true) × (inner ≡ show message level)))))
gates false killed human terminal inner message level = (λ h. cc, λ (h, _). cc)
gates true true human terminal inner message level = (λ h. cc, λ (_, (h, _)). cc)
gates true false false terminal inner message level = (λ h. cc, λ (_, (_, (h, _))). cc)
gates true false true false inner message level = (λ h. cc, λ (_, (_, (_, (h, _)))). cc)
gates true false true true inner message level =
    (λ h. (refl, (refl, (refl, (refl, h)))), λ (_, (_, (_, (_, h)))). h)

abbrev by_level : TelemetryLevel → Bool → Option TelemetryLevel → String → NoticeDecision
by_level level local notice_shown message =
    if eq_level level off
    then (if is_some notice_shown then skip already_shown else show message off)
    else if local
    then skip configured_locally
    else if announced notice_shown level
    then skip already_shown
    else show message level

News : TelemetryLevel → Bool → Option TelemetryLevel → Type 0
News level local notice_shown =
    ((level ≡ off) × (notice_shown ≡ none))
    ⊎ ((level ≢ off)
        × ((local ≡ false)
            × ((shown : TelemetryLevel) → notice_shown ≡ some shown → rank shown < rank level)))

by_level_above :
    (level : TelemetryLevel) (local : Bool) (notice_shown : Option TelemetryLevel)
    (message : String)
    → level ≢ off
    → eq_level level off ≡ false
    → (by_level level local notice_shown message ≡ show message level)
      ↔ News level local notice_shown
unfolding News
by_level_above level true notice_shown message on e =
    rw e (λ h. cc, λ h. elim h [ inl (f, _) ↦ absurd (on f) | inr (_, (f, _)) ↦ cc ])
by_level_above level false none message on e =
    rw e (λ _. inr (on, (refl, λ shown h. cc)), λ _. refl)
by_level_above level false (some shown) message on e = elim (Bool-cases (le_level level shown)) [
  | inl low ↦
      rw (e, low)
        (
          λ h. cc,
          λ h. elim h [
            | inl (f, _) ↦ absurd (on f)
            | inr (_, (_, high)) ↦ let less = high shown refl in absurd (ground arith)
          ],
        )
  | inr high ↦
      rw (e, high)
        (
          λ _.
              inr (
                on,
                (refl, λ other h. subst (λ x. rank x < rank level) (some-inj h) (ground arith)),
              ),
          λ _. refl,
        )
]

by_level_iff :
    (level : TelemetryLevel) (local : Bool) (notice_shown : Option TelemetryLevel)
    (message : String)
    → (by_level level local notice_shown message ≡ show message level)
      ↔ News level local notice_shown
unfolding News
by_level_iff off local none message = (λ _. inl (refl, refl), λ _. refl)
by_level_iff off local (some shown) message =
    (λ h. cc, λ h. elim h [ inl (_, f) ↦ cc | inr (on, _) ↦ absurd (on refl) ])
by_level_iff usage local notice_shown message =
    by_level_above usage local notice_shown message (λ h. cc) refl
by_level_iff diagnostic local notice_shown message =
    by_level_above diagnostic local notice_shown message (λ h. cc) refl
by_level_iff debug local notice_shown message =
    by_level_above debug local notice_shown message (λ h. cc) refl

-- The notice is shown exactly on an end-user install without a kill switch, on the command line or
-- in a chat with a terminal, where the level is news; what it then announces is that level.
pub notice_decision_iff :
    (debug_form : String → String) (policy : TelemetryPolicy) (notice_shown : Option TelemetryLevel)
    (surface : Surface) (stderr_is_tty : Bool)
    → (notice_decision debug_form policy notice_shown surface stderr_is_tty
        ≡ show (notice_text debug_form policy) policy.level)
      ↔ ((is_end_user policy.deployment ≡ true)
          × ((is_some policy.kill_switch ≡ false)
              × ((is_human surface ≡ true)
                  × ((stderr_is_tty ≡ true) × IsNews policy notice_shown))))
unfolding notice_decision News
notice_decision_iff debug_form policy notice_shown surface stderr_is_tty =
    let message = notice_text debug_form policy in
    let (there, back) =
      gates (is_end_user policy.deployment) (is_some policy.kill_switch) (is_human surface)
        stderr_is_tty
        (by_level policy.level (is_config_file policy.level_source) notice_shown message) message
        policy.level in
    let (fresh, told) =
      by_level_iff policy.level (is_config_file policy.level_source) notice_shown message in
    (
      λ h.
          let (user, (alive, (human, (terminal, inner)))) = there h in
          (user, (alive, (human, (terminal, fresh inner)))),
      λ (user, (alive, (human, (terminal, news)))).
          back (user, (alive, (human, (terminal, told news)))),
    )

by_level_shows :
    (level : TelemetryLevel) (local : Bool) (notice_shown : Option TelemetryLevel)
    (text message : String) (told : TelemetryLevel)
    → by_level level local notice_shown text ≡ show message told
    → (text ≡ message) × (level ≡ told)
by_level_shows off local none text message told h = (cc, cc)
by_level_shows off local (some shown) text message told h = cc
by_level_shows usage local notice_shown text message told h = ground arith
by_level_shows diagnostic local notice_shown text message told h = ground arith
by_level_shows debug local notice_shown text message told h = ground arith

shows :
    (debug_form : String → String) (policy : TelemetryPolicy) (notice_shown : Option TelemetryLevel)
    (surface : Surface) (stderr_is_tty : Bool) (message : String) (level : TelemetryLevel)
    → notice_decision debug_form policy notice_shown surface stderr_is_tty ≡ show message level
    → (notice_text debug_form policy ≡ message) × (policy.level ≡ level)
unfolding notice_decision
shows debug_form policy notice_shown surface stderr_is_tty message level h =
    let text = notice_text debug_form policy in
    let (_, (_, (_, (_, inner)))) =
      (gates (is_end_user policy.deployment) (is_some policy.kill_switch) (is_human surface)
          stderr_is_tty
          (by_level policy.level (is_config_file policy.level_source) notice_shown text) message
          level).0
        h in
    by_level_shows policy.level (is_config_file policy.level_source) notice_shown text message level
      inner

not-IsNews_again :
    (policy : TelemetryPolicy) (level : TelemetryLevel)
    → policy.level ≡ level
    → ¬ IsNews policy (some level)
not-IsNews_again policy level e (inl (_, h)) = cc
not-IsNews_again policy level e (inr (_, (_, high))) =
    let less = high level refl in absurd (omega (arith, less, ap rank e))

-- What was announced is not announced again: after a notice, a run with the same policy that finds
-- its level stored shows none.
pub notice_decision_once :
    (debug_form : String → String) (policy : TelemetryPolicy) (notice_shown : Option TelemetryLevel)
    (surface later : Surface) (stderr_is_tty again : Bool) (message : String)
    (level : TelemetryLevel)
    → notice_decision debug_form policy notice_shown surface stderr_is_tty ≡ show message level
    → (message' : String) (level' : TelemetryLevel)
    → notice_decision debug_form policy (some level) later again ≢ show message' level'
notice_decision_once debug_form policy notice_shown surface later tty again message level h message'
      level' k =
    let (_, told) = shows debug_form policy notice_shown surface tty message level h in
    let (text, same) = shows debug_form policy (some level) later again message' level' k in
    let shown : notice_decision debug_form policy (some level) later again
        ≡ show (notice_text debug_form policy) policy.level =
      k ∙ (λ i. show (sym text i) (sym same i)) in
    let (_, (_, (_, (_, news)))) =
      (notice_decision_iff debug_form policy (some level) later again).0 shown in
    not-IsNews_again policy level told news
