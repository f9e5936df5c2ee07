-- ===== src/Eth/Messages.antt =====
-- Topics of a receipt's logs, from services/treasury/src/domain/abi.rs.
use web_3_bank.Prelude.{
  ℕ, ◌+◌, Bool, true, false, ◌&&◌, Option, none, some, List, [], ◌∷◌, ◌==◌, leb, if◌then◌else◌,
  Bytes, length, get_elem?,
}
use web_3_bank.Eth.Submit.{Logs}

-- `eq_ignore_ascii_case`
ascii_lower : ℕ → ℕ
ascii_lower c = if leb b'A' c && leb c b'Z' then c + 32 else c

unfoldable pub eq_ignore_ascii_case : Bytes → Bytes → Bool
unfolding ascii_lower
eq_ignore_ascii_case [] [] = true
eq_ignore_ascii_case [] (d ∷ t) = false
eq_ignore_ascii_case (c ∷ s) [] = false
eq_ignore_ascii_case (c ∷ s) (d ∷ t) = (ascii_lower c == ascii_lower d) && eq_ignore_ascii_case s t

-- A second topic of 66 characters.
message_of : Option Bytes → Option Bytes
message_of none = none
message_of (some topic) = if length topic == 66 then some topic else none

has_topic : Bytes → List Bytes → Bool
unfolding eq_ignore_ascii_case
has_topic topic [] = false
has_topic topic (t ∷ topics) = eq_ignore_ascii_case t topic

-- The loops of `extract_ccip_message_id`: over the logs with the topic, and over all.
find_message : (List Bytes → Bool) → Logs → Option Bytes
unfolding message_of
find_message accepts [] = none
find_message accepts (topics ∷ logs) =
    let rest = find_message accepts logs in
    if accepts topics
    then elim (message_of (get_elem? topics 1)) [ none ↦ rest | some m ↦ some m ]
    else rest

unfoldable pub extract_ccip_message_id : Bytes → Logs → Option Bytes
unfolding find_message has_topic
extract_ccip_message_id topic logs = elim (find_message (has_topic topic) logs) [
  | some m ↦ some m
  | none ↦ find_message (λ topics. true) logs
]

-- The topic is the text of the event's hash.
unfoldable pub extract_reserve_bridge_initiated_message_id : Bytes → Logs → Option Bytes
unfolding find_message has_topic
extract_reserve_bridge_initiated_message_id topic logs = find_message (has_topic topic) logs
