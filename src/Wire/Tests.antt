-- ===== src/Wire/Tests.antt =====
-- `MakeSendBuffer` on a thread without a chunk, for a message with one string.
use iocp_multi_threading_cha.Prelude.{true, none, some, [], ◌∷◌}
use iocp_multi_threading_cha.Session.{Bytes}
use iocp_multi_threading_cha.Wire.Chunks.{SendBufferManager}

abbrev fresh : SendBufferManager
fresh = record { chunk = none; pool = [] }

abbrev left_open : SendBufferManager
left_open = record { chunk = some (record { opened = true; used_size = 0 }); pool = [] }

abbrev hello : Bytes
hello = 104 ∷ 101 ∷ 108 ∷ 108 ∷ 111 ∷ []
