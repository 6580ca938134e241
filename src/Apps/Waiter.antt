-- ===== src/Apps/Waiter.antt =====
-- base/apps/waiter.c: the program that starts five philosophers and hands out their forks. The addresses
-- of its variables and of its string constants are parameters; the loop that waits for a message
-- has `fuel` rounds.
use arcos_os.Prelude.{ℕ, zero, suc, ◌+◌, ◌-◌, ◌%◌, ◌==◌, if◌then◌else◌, ltb, [], ◌∷◌}
use arcos_os.Types.{Ptr, null, ulong_mod}
use arcos_os.Rtl.Format.{format_string}
use arcos_os.Kd.Console.{arguments}
use arcos_os.Apps.{
  Call, receive_first, get_process_id, create_process, close_handle, get_message_size, copy_message,
  kd_print, send_message, delete_message, Memory, App, out_of_fuel, pure, get, set_bytes,
  system_call, end_program, ◌>>=◌, ◌>>◌,
}
use arcos_os.Apps.Forks.{Forks, all_free, handle_message}

pub record Addresses : Type 0 where
  pub philosopher_process : Ptr
  pub args : Ptr
  pub my_message : Ptr
  pub philosopher_name : Ptr
  pub args_format : Ptr
  pub fork_text : Ptr
  pub small_text : Ptr
  pub farewell_text : Ptr

-- A CHAR, which is signed, as an ULONG.
abbrev pub char_word : ℕ → ℕ
char_word c = if ltb c 128 then c else c + ulong_mod - 256

module _ {W : Type 0} (serve : Call → Memory → W → ℕ × Memory × W) (fuel : ℕ) (at : Addresses) where
  -- The first `for` loop of AppWaiter, from `i` on for `rounds` rounds.
  unfoldable pub create_philosophers : ℕ → ℕ → App W (Unit {0})
  create_philosophers zero i = pure tt
  create_philosophers (suc rounds) i = do
    pid ← system_call serve get_process_id
    b ← get λ m. m.bytes
    set_bytes
        (format_string fuel (arguments (i ∷ (i + 1) % 5 ∷ pid ∷ [])) b at.args 25
          at.args_format).1.bytes
    status ← system_call serve (create_process at.philosopher_name 5 at.philosopher_process at.args)
    if status == 0
        then (do
          h ← get λ m. m.words at.philosopher_process
          _ ← system_call serve (close_handle h)
          pure tt)
        else pure tt
    create_philosophers rounds (i + 1)

  -- `while (!(message = ReceiveFirst(5000)));`
  unfoldable pub wait_for_request : ℕ → App W Ptr
  wait_for_request zero = λ _. out_of_fuel
  wait_for_request (suc rounds) = do
    message ← system_call serve (receive_first 5000)
    let rest = wait_for_request rounds
    if message == null then rest else pure message

  -- One round of the loop over the messages.
  unfoldable pub serve_request : Forks → App W Forks
  serve_request f = do
    message ← wait_for_request fuel
    size ← system_call serve (get_message_size message)
    status ← system_call serve (copy_message at.my_message message size)
    if status == 0
        then pure tt
        else (do _ ← system_call serve (kd_print at.small_text (status ∷ [])); pure tt)
    m ← get λ m. m.messages message
    type ← get λ u. char_word (u.bytes m.buffer)
    fork ← get λ u. (char_word (u.bytes (m.buffer + 1)) + ulong_mod - 48) % ulong_mod
    let (f', granted) = handle_message type fork f
    if granted
        then (do _ ← system_call serve (send_message m.sender_pid 0 at.fork_text 5); pure tt)
        else pure tt
    _ ← system_call serve (delete_message message)
    pure f'

  unfoldable pub serve_requests : ℕ → Forks → App W Forks
  serve_requests zero f = pure f
  serve_requests (suc rounds) f = do f' ← serve_request f; serve_requests rounds f'

  -- AppWaiter
  unfoldable pub app_waiter : App W (Unit {0})
  app_waiter = do
    create_philosophers 5 0
    _ ← serve_requests 300 all_free
    _ ← system_call serve (kd_print at.farewell_text [])
    end_program

-- AppStartWaiter, base/apps/startwaiter.c: `proc` and `name` are the addresses of its variable and of its
-- string constant.
unfoldable app_start_waiter :
    {W : Type 0} → (Call → Memory → W → ℕ × Memory × W) → Ptr → Ptr → App W (Unit {0})
app_start_waiter serve proc name = do
  _ ← system_call serve (create_process name 15 proc null)
  h ← get λ m. m.words proc
  _ ← system_call serve (close_handle h)
  end_program
