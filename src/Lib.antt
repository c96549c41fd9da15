-- ===== src/Lib.antt =====
-- Verification of the network laboratory: C programs, one directory for each assignment, which
-- share no code. The modules below are each about one of them, over the module Common.
--
-- Common: the Boolean tests and the lists over the native numbers, arrays of records that are
-- searched and closed up (Common/Arrays, Common/Keys), C strings and `fgets` (Common/Bytes), what
-- is used of sscanf, sprintf and strcmp (Common/Scan, Common/Decimal), signed counters
-- (Common/Int), and statements on every index of a list (Common/Pointwise).
--
-- Ktp: LA4.0/ksocket.c and LA4.0/ksocket.h, a stop-and-wait transport over UDP.
--   Ktp/Socket: struct ktp_socket, the arrays ktp_sockets and sock_count (Table), k_socket,
--     find_sock, k_bind, k_close. Ktp/Lookup and Ktp/Table see the table as a map from descriptors.
--   Ktp/Send: k_sendto. The list of events holds what sendto, select, recvfrom and dropMessage give
--     in each round of the loop; a list that ends inside the loop gives `waiting`. Ktp/Progress and
--     Ktp/Calls are about the loop and the call.
--   Ktp/Recv: k_recvfrom in the same way, `fault` where memcpy gets a negative length. Ktp/Packets
--     and Ktp/Delivery are about it.
--   Ktp/Network: two sockets, one that sends and one that receives, over a network that keeps every
--     datagram it ever carried and may give any of them at any time, as a step relation;
--     Ktp/Invariant, Ktp/Preserved and Ktp/Reliable are about what it reaches.
--   Ktp/Transfer: the loops of LA4.0/user1.c and LA4.0/user2.c, which send and receive a file; the
--     fuel of the first is the length of the file, of which each chunk takes a byte at least.
--     Ktp/Files is about them. Ktp/Users: main of both programs over the calls of the library, from
--     k_socket to k_close; Ktp/Totals is about the count that user1 prints.
--   Sequence numbers are C ints that never reach their bound here, and char on the wire: `to_char`
--   keeps eight bits and `char_eq` compares a signed char with an int.
--
-- Tasks: LA5/server.c, a queue of tasks in shared memory that one child process for each client
-- works on.
--   Tasks/Queue: struct Task, load_tasks, check_all_completed, check_task_timeouts,
--   get_next_task_index.
--   Tasks/Handler: handle_client, one function for each round of its loop (handle_round), with the
--     requests GET_TASK, RESULT and exit (on_get_task, on_result, release) under the semaphore.
--   Tasks/Server: main and sigchld_handler: the main process and its children as a step relation,
--     in which a step is a round of the main loop, a round of a child, the death of a child, or one
--     turn of the loop of the handler. Tasks/Changes, Tasks/Ownership, Tasks/Children and
--     Tasks/Fleet hold the invariants, Tasks/Guarantees, Tasks/Requests and Tasks/Loading the
--     results.
--   Time is the number of seconds that time(NULL) gives. active_clients is signed (Common/Int).
--
-- Cldp: LA7/ChandranshSingh_22CS30017/cldp_server.c and cldp_client.c, discovery over raw IP
-- sockets.
--   Cldp/Checksum: checksum, with the 64-bit sum; the loop that folds the carries recurs on the
--     order of the numbers, since each turn makes the sum smaller, and needs no fuel.
--     Cldp/Integrity is about it.
--   Cldp/Packet: send_packet, byte by byte, on a machine that stores the low byte first, and the
--     fields that the receivers read. Cldp/Wire is about both.
--   Cldp/ServerList: server_list and server_count of the client, update_server_list,
--     cleanup_server_list (a loop with as many turns as there are entries), the loop that marks all
--     servers. Cldp/Directory and Cldp/Cleanup are about them.
--   Cldp/Peer: process_query and one round of main of the server; listen_for_hello and
--     query_all_servers of the client over a list of rounds, each with its time and with what
--     select and recvfrom gave. Cldp/Queries, Cldp/Marking, Cldp/Heard and Cldp/Exchange are about
--     them.
--   The kernel, which fills in the source address of a packet, is a parameter with the hypotheses
--   of Cldp/Exchange.Delivers; the texts that gethostname, strftime and printf of a float give are
--   the fields of Metadata.
--
-- Smtp: LA6/mysmtp_server.c, a mail server with one thread for each connection, and
-- LA6/mysmtp_client.c.
--   Smtp/Mailbox: store_email, list_emails and get_email on files as lists of bytes; `none` is a
--     write outside of an array. The fuel of the loop over the lines is the length of the file, and
--     each line takes a byte at least.
--   Smtp/Session: handle_client, one step for each recv; the buffer is kept whole from one to the
--     next. A word that outgrows its array is a step to `crash`, which no round follows.
--   Smtp/Box, Smtp/Search and Smtp/Stored are about the mailboxes, Smtp/Protocol, Smtp/Order,
--   Smtp/Reachable, Smtp/Bounds and Smtp/Forged about the commands.
--   Smtp/Client: one round of the main loop of the client; the fuel of the loop over the lines of a
--     message is the length of the input, of which each line takes a byte at least. Smtp/Typed is
--     about it.
--   Smtp/Threads: the accept loop of main and the threads that it starts, as a sequence of events,
--     about which connection each thread serves.
--   In the rest one connection is modelled, and other threads change the files between two of its
--   rounds at most: threads that write one mailbox at once are not.
--
-- Crypt: LA3/doencfileserver.c and LA3/retrieveencfileclient.c, files encrypted over TCP.
--   Crypt/Cipher: encrypt_ch, and the inverse of a substitution, which the programs do not have.
--   Crypt/Framing: the loops that send a file in pieces (79 bytes in the server, 69 in the client)
--     and that receive one, which are alike in both programs, and one turn of the loop of
--     handle_client (serve_file). The calls of recv are a list; the fuel of the loop that sends is
--     the length of the file, of which each piece takes a byte at least. Crypt/Dialogue: one turn
--     of main of the client, with what the user types; each word takes a byte at least, so that the
--     length of the input is enough fuel. Crypt/Roundtrip and Crypt/Session are about both
--     programs.
--
-- Words: LA2/wordserver.c and LA2/wordclient.c, the words of a file asked for one by one over UDP.
--   Words/Server: the first reply and one round of the loop of the server. Words/Client: the name
--     of the file and one round of the loop of the client, with `crash` for undefined behaviour.
--     Words/Exchange: both over a network that loses nothing; the fuel is the number of rounds.
--     Words/Lines and Words/Transfer are about them.
--
-- Worker: LA5/client.c, the client of the task queue.
--   Worker/Expression: evaluate_expression on the text of a task, with int of 32 bits; `none` is
--     undefined behaviour, from an overflow or from a number that sscanf did not store.
--     Worker/Loop: one round of the loop of main. Worker/Numerals and Worker/Evaluation are about
--     the first; Worker/Exchange puts the client and handle_client of Tasks together.
--
-- Chat: the servers of LT1, which select over their clients, and the clients.
--   Chat/Run: code that sends and that may end the program or be undefined.
--   Chat/Relay: LT1/LT1_22CS30017/chatserver.c, which sends every message to the other clients:
--     sendtoall and one round of main over what its calls give (Calls). Chat/Forwarding and
--     Chat/Watching are about it.
--   Chat/Rounds: LT1/LT1_22CS10082_B/chatserver.c, which finds the largest number of a round: one
--     round of main in the same way, with int as signed numbers and INT_MIN as the mark of a number
--     that is missing; the number of the round never reaches the bound of int here. Chat/Winner,
--     Chat/Numbers, Chat/Slots and Chat/Fairness are about it.
--   Chat/Clients: one round of main of both clients (chatclient.c of the two directories).
--     Chat/Pairs is about each server with the messages of its client.
--
-- Not modelled: the set-up of sockets, processes and shared memory, and what is printed; the echo
-- programs of LT2, which have little logic besides these calls, and the exercises in the
-- directories tuts.
pub mod Common
pub mod Ktp
pub mod Tasks
pub mod Cldp
pub mod Smtp
pub mod Crypt
pub mod Chat
pub mod Words
pub mod Worker
