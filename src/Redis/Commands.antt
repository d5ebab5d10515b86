-- ===== src/Redis/Commands.antt =====
-- The commands of redis/wit and the frames that `From` of database.rs makes of them. The arguments that the code does
-- not send yet (those of `hello`, and the times and options of `set`) are left out of `Command`.
use wasmx.Base.{ℕ, List, [], ◌∷◌, Option, none, some}
use wasmx.Redis.{bytes, BytesFrame, BytesFrames, nil, cons, blob_string, array}

pub data Command : Type 0 where
  discard exec hello multi quit unwatch : Command
  get incr : List ℕ → Command
  ping : Option (List ℕ) → Command
  publish set : List ℕ → List ℕ → Command
  watch : List (List ℕ) → Command

-- `keys.into_iter().map(blob_string)`
unfoldable pub blob_strings : List (List ℕ) → BytesFrames
blob_strings [] = nil
blob_strings (k ∷ ks) = cons (blob_string k) (blob_strings ks)

-- `cmd`
unfoldable pub cmd : List ℕ → BytesFrames → BytesFrame
cmd name arguments = array (cons (blob_string name) arguments)

unfoldable pub from_ping : Option (List ℕ) → BytesFrame
unfolding cmd
from_ping none = cmd (bytes "ping") nil
from_ping (some message) = cmd (bytes "ping") (cons (blob_string message) nil)

-- `From<Command> for BytesFrame`, with those of the commands
unfoldable pub from_command : Command → BytesFrame
unfolding cmd from_ping blob_strings
from_command Command.discard = cmd (bytes "discard") nil
from_command Command.exec = cmd (bytes "exec") nil
from_command (Command.get key) = cmd (bytes "get") (cons (blob_string key) nil)
from_command Command.hello = cmd (bytes "hello") nil
from_command (Command.incr key) = cmd (bytes "incr") (cons (blob_string key) nil)
from_command Command.multi = cmd (bytes "multi") nil
from_command (Command.ping message) = from_ping message
from_command (Command.publish channel message) =
    cmd (bytes "publish") (cons (blob_string channel) (cons (blob_string message) nil))
from_command Command.quit = cmd (bytes "quit") nil
from_command (Command.set key value) =
    cmd (bytes "set") (cons (blob_string key) (cons (blob_string value) nil))
from_command Command.unwatch = cmd (bytes "unwatch") nil
from_command (Command.watch keys) = cmd (bytes "watch") (blob_strings keys)
