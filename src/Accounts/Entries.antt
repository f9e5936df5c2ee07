-- ===== src/Accounts/Entries.antt =====
-- The entry of a row against what the row adds to a balance and takes from it:
-- services/treasury/src/domain/activity.rs and db/account_event_repo.rs.
use web_3_bank.Prelude.{
  ℕ, ◌+◌, ◌≡◌, refl, ap, Bool, true, false, not, ◌&&◌, Bool-cases, Option, none, some, inl, inr,
  List, [], ◌∷◌, ◌==◌, Bytes, ◌===◌, if◌then◌else◌,
}
use web_3_bank.Decommission.Ops.{to_lowercase}
use web_3_bank.Decommission.PlanCovers.{to_lowercase_idem}
use web_3_bank.AccountIndex.Events.{
  EventKind, deposited, withdrawn, transfer, hot_path_initiated, hot_path_released, AccountEventRow,
  same_lower, credited, debited, credit, debit,
}
use web_3_bank.AccountIndex.Parsing.{eq_ignore_case}
use web_3_bank.Accounts.Activity.{
  deposit, withdrawal, moved, incoming, outgoing, view_of, completed, or_empty,
  normalize_relay_status, ActivityView, is_own, transfer_view, map_kind,
}

-- What an entry says came in on a chain, and what went out.
abbrev came_in : ActivityView → ℕ
came_in v = elim v.direction [ incoming ↦ v.amount_wei | outgoing ↦ 0 ]

abbrev went_out : ActivityView → ℕ
went_out v = elim v.direction [ incoming ↦ 0 | outgoing ↦ v.amount_wei ]

unfoldable pub total_in : ℕ → List ActivityView → ℕ
total_in chain [] = 0
total_in chain (v ∷ views) = (if v.chain_id == chain then came_in v else 0) + total_in chain views

unfoldable pub total_out : ℕ → List ActivityView → ℕ
total_out chain [] = 0
total_out chain (v ∷ views) =
    (if v.chain_id == chain then went_out v else 0) + total_out chain views

-- A transfer has two addresses, which are not both the user's.
abbrev clear_parts : Bytes → EventKind → Option Bytes → Option Bytes → Bool
clear_parts user transfer none to = false
clear_parts user transfer (some from) none = false
clear_parts user transfer (some from) (some to) =
    not (same_lower user (some from) && same_lower user (some to))
clear_parts user deposited from to = true
clear_parts user withdrawn from to = true
clear_parts user hot_path_initiated from to = true
clear_parts user hot_path_released from to = true

abbrev pub IsClear : Bytes → AccountEventRow → Type 0
IsClear user r = clear_parts user r.event_kind r.address_from r.address_to ≡ true

own_lower : (user a : Bytes) → eq_ignore_case a (to_lowercase user) ≡ same_lower user (some a)
unfolding eq_ignore_case same_lower
own_lower user a = ap (λ b. to_lowercase a === b) (to_lowercase_idem user)

is_own-same_lower : (user : Bytes) (o : Option Bytes) → is_own user o ≡ same_lower user o
unfolding is_own same_lower
is_own-same_lower user none = refl
is_own-same_lower user (some a) = own_lower user a

abbrev in_of : Option ActivityView → ℕ
in_of none = 0
in_of (some v) = came_in v

abbrev out_of : Option ActivityView → ℕ
out_of none = 0
out_of (some v) = went_out v

abbrev place_of : AccountEventRow → Option ActivityView → ℕ
place_of row none = row.chain_id
place_of row (some v) = v.chain_id

-- The entry of a row says what the row adds and takes.
pub record Says (row : AccountEventRow) (user : Bytes) (o : Option ActivityView) : Type 0 where
  pub adds : in_of o ≡ credit user row
  pub takes : out_of o ≡ debit user row
  pub place : place_of row o ≡ row.chain_id

transfer-Says :
    (row : AccountEventRow) (user : Bytes) (from to : Option Bytes)
    → row.event_kind ≡ transfer
    → row.address_from ≡ from
    → row.address_to ≡ to
    → clear_parts user transfer from to ≡ true
    → Says row user (transfer_view row user from to)
unfolding transfer_view credit debit
transfer-Says row user none to k f t h = cc
transfer-Says row user (some from) none k f t h = cc
transfer-Says row user (some from) (some to) k f t h =
    elim (Bool-cases (same_lower user (some from))) [
      | inl sent ↦ elim (Bool-cases (same_lower user (some to))) [
        | inl kept ↦ let no = rw (sent, kept) at h in cc
        | inr gone ↦ record {
          adds = rw (own_lower user from, sent, k, t, gone) refl;
          takes = rw (own_lower user from, sent, k, f, sent) refl;
          place = rw (own_lower user from, sent) refl;
        }
      ]
      | inr other ↦ elim (Bool-cases (same_lower user (some to))) [
        | inl got ↦ record {
          adds = rw (own_lower user from, other, own_lower user to, got, k, t, got) refl;
          takes = rw (own_lower user from, other, own_lower user to, got, k, f, other) refl;
          place = rw (own_lower user from, other, own_lower user to, got) refl;
        }
        | inr none_of ↦ record {
          adds = rw (own_lower user from, other, own_lower user to, none_of, k, t, none_of) refl;
          takes = rw (own_lower user from, other, own_lower user to, none_of, k, f, other) refl;
          place = rw (own_lower user from, other, own_lower user to, none_of) refl;
        }
      ]
    ]

-- A row that adds if it names the user as its receiver, and takes nothing.
got-Says :
    (row : AccountEventRow) (user : Bytes) (v : ActivityView)
    → v.chain_id ≡ row.chain_id
    → came_in v ≡ row.amount_wei
    → went_out v ≡ 0
    → credited row.event_kind ≡ true
    → debited row.event_kind ≡ false
    → Says row user (if is_own user row.address_to then some v else none)
unfolding credit debit
got-Says row user v p i o c d =
    let own = is_own-same_lower user row.address_to in
    elim (Bool-cases (same_lower user row.address_to)) [
      | inl yes_own ↦ record {
        adds = rw (own, yes_own, c) i;
        takes = rw (own, yes_own, d) o;
        place = rw (own, yes_own) p;
      }
      | inr other ↦ record {
        adds = rw (own, other, c) refl;
        takes = rw (own, other, d) refl;
        place = rw (own, other) refl;
      }
    ]

sent-Says :
    (row : AccountEventRow) (user : Bytes) (v : ActivityView)
    → v.chain_id ≡ row.chain_id
    → came_in v ≡ 0
    → went_out v ≡ row.amount_wei
    → credited row.event_kind ≡ false
    → debited row.event_kind ≡ true
    → Says row user (if is_own user row.address_from then some v else none)
unfolding credit debit
sent-Says row user v p i o c d =
    let own = is_own-same_lower user row.address_from in
    elim (Bool-cases (same_lower user row.address_from)) [
      | inl yes_own ↦ record {
        adds = rw (own, yes_own, c) i;
        takes = rw (own, yes_own, d) o;
        place = rw (own, yes_own) p;
      }
      | inr other ↦ record {
        adds = rw (own, other, c) refl;
        takes = rw (own, other, d) refl;
        place = rw (own, other) refl;
      }
    ]

pub kind-Says :
    (k : EventKind) (row : AccountEventRow) (user : Bytes) (relay : Option Bytes)
    → row.event_kind ≡ k
    → clear_parts user k row.address_from row.address_to ≡ true
    → Says row user (map_kind k row user relay)
unfolding map_kind
kind-Says deposited row user relay k h =
    got-Says row user (view_of row deposit incoming [] completed) refl refl refl (rw k refl)
      (rw k refl)
kind-Says withdrawn row user relay k h =
    sent-Says row user (view_of row withdrawal outgoing [] completed) refl refl refl (rw k refl)
      (rw k refl)
kind-Says transfer row user relay k h =
    transfer-Says row user row.address_from row.address_to k refl refl h
kind-Says hot_path_initiated row user relay k h =
    sent-Says row user
      (view_of row moved outgoing (or_empty row.address_to) (normalize_relay_status relay)) refl
      refl refl (rw k refl) (rw k refl)
kind-Says hot_path_released row user relay k h =
    got-Says row user (view_of row moved incoming [] completed) refl refl refl (rw k refl)
      (rw k refl)
