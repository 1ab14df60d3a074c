-- ===== src/Net/Loop/Runs.antt =====
-- The threads around a client at work: a read and a write event, whose tasks overlap.
use socket_message.Prelude.{
  ◌≡◌, refl, true, false, Option, none, some, List, [], ◌∷◌, if◌then◌else◌,
}
use socket_message.Net.Interest.{
  Epoll, add_client_read, add, event_callback, client_write_callback, add_client_write,
  del_client_read, remove,
}
use socket_message.Net.Interest.Agrees.{wanted}
use socket_message.Net.Loop.{
  Watch, new_watch, Move, wait_move, handle_move, recv_move, callback_move, run_moves, move,
  wait_report, may_report, handle_report, queue_task, end_recv,
}
use socket_message.Net.Loop.Reads.{one_reader}

abbrev no_events : Epoll
no_events = λ k. none

-- Data comes in; while its task runs, SendPackage leaves bytes in the buffer and the client can be written
-- to; both tasks are under way when the read task ends.
abbrev moves : List Move
moves =
    wait_move (record { is_read = true; is_write = false })
    ∷ handle_move
    ∷ callback_move true
    ∷ wait_move (record { is_read = false; is_write = true })
    ∷ handle_move
    ∷ recv_move
    ∷ []

abbrev reached : Option Watch → Watch
reached o = elim o [ some w ↦ w | none ↦ new_watch no_events 5 ]

abbrev after_moves : Watch
after_moves = reached (run_moves moves (new_watch no_events 5))

after_moves_lem : run_moves moves (new_watch no_events 5) ≡ some after_moves
unfolding run_moves new_watch move wait_report may_report add_client_read add handle_report
    queue_task event_callback client_write_callback add_client_write del_client_read remove end_recv
after_moves_lem = refl

one_reader_example :
    (after_moves.interest.epoll after_moves.interest.client.fd ≡ wanted after_moves.interest.client)
    × (after_moves.receiving ≡ (if after_moves.interest.client.cfd_is_read then 0 else 1))
one_reader_example = one_reader no_events 5 moves after_moves refl after_moves_lem
