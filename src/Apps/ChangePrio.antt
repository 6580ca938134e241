-- ===== src/Apps/ChangePrio.antt =====
-- base/apps/changeprio.c: the program that reads the number of a process and a priority from its
-- arguments. The addresses of its array and of its string constants are parameters; a loop has `fuel`
-- rounds.
pub mod Parse
pub mod Split
pub mod Program
use arcos_os.Prelude.{
  ℕ, zero, suc, Option, none, some, true, false, ◌||◌, ◌==◌, if◌then◌else◌, List, [], ◌∷◌,
}
use arcos_os.Types.{Ptr}
use arcos_os.Rtl.Memory.{Bytes}
use arcos_os.Rtl.Strings.{app_is_digit, ato_ul}
use arcos_os.Apps.{
  Call, copy_args, kd_print, change_priority, Memory, App, pure, get, put_byte, with_rounds,
  system_call, end_program, ◌>>=◌, ◌>>◌,
}

-- `while ((!Rtlappisdigit(*++pek)) && (*pek != 0));`, from the first address that is tested.
unfoldable pub to_digit : ℕ → Bytes → Ptr → Option Ptr
to_digit zero m p = none
to_digit (suc fuel) m p =
    let rest = to_digit fuel m (suc p) in if app_is_digit (m p) || (m p == 0) then some p else rest

-- `while (Rtlappisdigit(*++pek));`
unfoldable pub past_digits : ℕ → Bytes → Ptr → Option Ptr
past_digits zero m p = none
past_digits (suc fuel) m p =
    let rest = past_digits fuel m (suc p) in if app_is_digit (m p) then rest else some p

pub record Addresses : Type 0 where
  pub args : Ptr
  pub usage : Ptr
  pub second_missing : Ptr
  pub second_missing_short : Ptr
  pub not_in_use : Ptr
  pub changed : Ptr
  pub changed_to : Ptr

module _ {W : Type 0} (serve : Call → Memory → W → ℕ × Memory × W) (fuel : ℕ) (at : Addresses) where
  abbrev pub complain : {A : Type 0} → Ptr → App W A
  complain text = do _ ← system_call serve (kd_print text []); end_program

  abbrev pub bytes : App W Bytes
  bytes = get λ m. m.bytes

  -- The search for the first digit.
  unfoldable pub first_digit : App W Ptr
  first_digit = do
    b ← bytes
    let search = (do
      p ← with_rounds (to_digit fuel b (suc at.args))
      if b p == 0 then complain at.usage else pure p)
    if app_is_digit (b at.args) then pure at.args else search

  -- The part behind the first number, which begins at `first` and ends at `stop`: where the second one begins.
  unfoldable pub second_number : Ptr → App W Ptr
  second_number stop = do
    put_byte stop 0
    b ← bytes
    second ← with_rounds (to_digit fuel b (suc stop))
    if b second == 0 then complain at.second_missing_short else do
      end ← with_rounds (past_digits fuel b (suc second))
      if b end == 0 then pure tt else put_byte end 0
      pure second

  -- The arguments as two strings.
  unfoldable pub split_args : App W (Ptr × Ptr)
  split_args = do
    first ← first_digit
    b ← bytes
    stop ← with_rounds (past_digits fuel b (suc first))
    if b stop == 0
        then complain at.second_missing
        else do second ← second_number stop; pure (first, second)

  -- The part of AppChangePrio behind the call of ChangePriority.
  unfoldable pub report : Ptr → Ptr → ℕ → ℕ → App W (Unit {0})
  report first second pid status =
      if status == 0
      then (do
        _ ← system_call serve (kd_print at.changed (first ∷ []))
        _ ← system_call serve (kd_print at.changed_to (second ∷ []))
        end_program)
      else (do _ ← system_call serve (kd_print at.not_in_use (pid ∷ [])); end_program)

  -- AppChangePrio
  unfoldable pub app_change_prio : App W (Unit {0})
  app_change_prio = do
    length ← system_call serve (copy_args at.args 25)
    if length == 0 then complain at.usage else do
      (first, second) ← split_args
      b ← bytes
      pid ← with_rounds (ato_ul fuel b first)
      prio ← with_rounds (ato_ul fuel b second)
      status ← system_call serve (change_priority pid prio)
      report first second pid status
