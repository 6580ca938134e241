-- ===== src/Ps/Programs.antt =====
-- base/ps/ps.c: the table of applications. `fuel` bounds every loop.
use arcos_os.Prelude.{ℕ, not, List, [], ◌∷◌, ◌==◌, if◌then◌else◌}
use arcos_os.Prelude.Run.{Cmd, pure, get, ◌>>=◌}
use arcos_os.Types.{Ptr, null}
use arcos_os.Kernel.{Kernel}
use arcos_os.Rtl.Strings.{same, string_length, compare_strings}
use arcos_os.Kernel.{with_rounds}

-- APPLICATION: the address of a name, and that of a function.
pub record Application : Type 0 where
  pub name : Ptr
  pub execute : Ptr

module _ (fuel : ℕ) where
  -- The loop of GetProgramAdress.
  unfoldable pub get_program_adress_from : List Application → Ptr → Cmd Kernel Ptr
  get_program_adress_from [] program_name = pure null
  get_program_adress_from (app ∷ apps) program_name = do
    m ← get λ k. k.bytes
    n ← with_rounds (string_length fuel m app.name)
    n' ← with_rounds (string_length fuel m program_name)
    let rest = get_program_adress_from apps program_name
    if not (n == n') then rest else do
      order ← with_rounds (compare_strings fuel m app.name program_name)
      elim order [ same ↦ pure app.execute | _ ↦ rest ]

  unfoldable pub get_program_adress : List Application → Ptr → Cmd Kernel Ptr
  get_program_adress apps program_name =
      if program_name == null then pure null else get_program_adress_from apps program_name

-- The loop of GetProgramName.
unfoldable pub get_program_name_from : List Application → Ptr → Ptr
get_program_name_from [] execute = null
get_program_name_from (app ∷ apps) execute =
    if app.execute == execute then app.name else get_program_name_from apps execute

unfoldable pub get_program_name : List Application → Ptr → Ptr
get_program_name apps execute = if execute == null then null else get_program_name_from apps execute
