-- ===== src/Examples/Platform.antt =====
-- Payloads and registrations.
use digital_wellbeing.Common.{ℕ, ◌≡◌, refl, none, some, arith, [], ◌∷◌}
use digital_wellbeing.Platform.{PlatformEvent, event_uid}
use digital_wellbeing.Platform.Payload.{
  Field, Value, fields_of, parse_event_payload, parse_event_payload-fields_of,
}
use digital_wellbeing.Platform.Registry.{
  PluginRegistry, new, register, unregister, focus_proxy_for_uid,
}
use digital_wellbeing.Platform.Registry.Pairing.{IsPaired, register-IsPaired, new-IsPaired}
use digital_wellbeing.Values.AppClass
use digital_wellbeing.Values.AppClass.{AppClass}
use digital_wellbeing.Values.EventType.{EventType, to_code, try_from, to_code_of_try_from}
use digital_wellbeing.Values.WindowTitle
use digital_wellbeing.Values.WindowTitle.{WindowTitle}

abbrev firefox : AppClass
firefox = record { text = "firefox" }

abbrev focus_firefox : PlatformEvent
focus_firefox = PlatformEvent.focus firefox (record { text = "home" }) 1000

parse_event_payload-fields_of_example :
    (parse_event_payload
        (Value.variant (Value.structure (fields_of focus_firefox)))
        (event_uid focus_firefox)
      ≡ some focus_firefox)
    × (parse_event_payload (Value.structure (fields_of focus_firefox)) (event_uid focus_firefox)
        ≡ some focus_firefox)
unfolding AppClass.new WindowTitle.new
parse_event_payload-fields_of_example = parse_event_payload-fields_of focus_firefox (refl, refl)

empty_app_refused :
    parse_event_payload
      (Value.structure (Field.u32 0 ∷ Field.str "" ∷ Field.str "t" ∷ Field.u32 0 ∷ []))
      1000
    ≡ none
unfolding parse_event_payload AppClass.new
empty_app_refused = refl

-- The registry with one plugin, which has been replaced by another of the same user.
abbrev one : PluginRegistry ℕ
one = register ":1.7" 1000 7 new

abbrev two : PluginRegistry ℕ
two = register ":1.9" 1000 9 one

one-IsPaired : IsPaired one
unfolding new
one-IsPaired = register-IsPaired ":1.7" 1000 7 new (λ c h. ground arith) new-IsPaired

replaced_is_gone : focus_proxy_for_uid (unregister ":1.7" two) 1000 ≡ some (1000, 9)
unfolding register new unregister focus_proxy_for_uid
replaced_is_gone = refl

to_code_of_try_from_example : to_code EventType.block ≡ 8
unfolding try_from
to_code_of_try_from_example = to_code_of_try_from 8 EventType.block refl
