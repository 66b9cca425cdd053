-- ===== src/Tests/Texts.antt =====
-- The functions on texts, run on single inputs.
use inride_worker_manager.Text.{uuid_text}
use inride_worker_manager.Ingress.Payload.{
  end, field, int, notification_id_of, obj, parse_uuid, str,
}
use inride_worker_manager.Prelude.{String, [], none, refl, some, true, ◌∷◌, ◌≡◌}
use inride_worker_manager.Tests.Samples.{worker}
use inride_worker_manager.Tests.Races.{job}
use inride_worker_manager.Pipeline.ExpoSender
use inride_worker_manager.Monitoring

abbrev dashed : String
dashed = "12345678-1234-5678-1234-567812345678"

printed : uuid_text 24197857161011715162171839636988778104 ≡ dashed
unfolding worker
printed = refl

parsed : parse_uuid dashed ≡ some 24197857161011715162171839636988778104
unfolding worker
parsed = refl

-- braces, the prefix of a URN, capitals and underscores between digits are accepted
parsed_braces : parse_uuid "{urn:uuid:000000000000000000000000000000Ff}" ≡ some 255
unfolding worker
parsed_braces = refl

parsed_underscore : parse_uuid "0000000000000000000000000000_1_f" ≡ some 31
unfolding worker
parsed_underscore = refl

refused_double_underscore : parse_uuid "0000000000000000000000000000__1f" ≡ none
unfolding worker
refused_double_underscore = refl

refused_short : parse_uuid "1234" ≡ none
unfolding worker
refused_short = refl

-- an id that is a JSON number of 32 digits is read as a text
parsed_number :
    notification_id_of (obj (field "notification_id" (int 11111111111111111111111111111111) end))
    ≡ some 22685491128062564230891640495451214097
unfolding worker
parsed_number = refl

missing_id : notification_id_of (obj (field "id" (str dashed) end)) ≡ none
unfolding worker
missing_id = refl

not_an_object : notification_id_of (str dashed) ≡ none
unfolding worker
not_an_object = refl

title_of_sms : ExpoSender.title job ≡ "New SMS from Ann"
unfolding worker
title_of_sms = refl

cut : ExpoSender.truncate (some "  a b c d  ") 4 ≡ some "a b..."
unfolding worker
cut = refl

dead_token : ExpoSender.names_dead_token "Error: DeviceNotRegistered" ≡ true
unfolding worker
dead_token = refl

metric : Monitoring.metric_key "m" (("b", "2") ∷ ("a", "1") ∷ []) ≡ "m|a=1,b=2"
unfolding worker
metric = refl
