-- ===== src/Runs/Sessions.antt =====
-- A run of the key agreement over sockets.
use safe_transmission.Common.{
  ℕ, ◌+◌, ◌^◌, ◌≡◌, refl, true, false, List, [], ◌∷◌, ◌++◌, some, ok, All,
}
use safe_transmission.BaseAsn1.Memory.{read_bytes, copy_in}
use safe_transmission.BaseAsn1.Header.{
  get_tag_info, count_length_of_size, read_big_endian, length_info, get_length_info, length_bytes,
  length_field,
}
use safe_transmission.BaseAsn1.Integer.{int_to_char, char_to_int, write_integer, read_integer}
use safe_transmission.BaseAsn1.Element.{write_tag_and_length, read_tag_and_length}
use safe_transmission.BaseAsn1.Strings.{
  write_char_string, write_printable_string, read_printable_string,
}
use safe_transmission.BaseAsn1.Sequence.{
  total_length, copy_nodes, write_sequence, read_item, read_items, read_sequence,
}
use safe_transmission.BaseAsn1.Buffers.{any_buffer, string_to_any_buf, encode_char, decode_char}
use safe_transmission.SequenceAsn1.{
  link, write_head_node_int, write_next_node_int, write_next_node_str, read_head_node_int,
  read_next_node_str, pack_sequence, unpack_sequence,
}
use safe_transmission.Codec.CString.{strlen, overwrite, strcpy, write_field, read_field}
use safe_transmission.Codec.Request
use safe_transmission.Codec.Request.{RequestMsg, RequestCodec}
use safe_transmission.Codec.Respond
use safe_transmission.SecKeyShm.{NodeShmInfo, strcmp_equal, shm_read}
use safe_transmission.SecKeyShm.Write.{IsTaken}
use safe_transmission.TcpSocket.Os.{done, Sys}
use safe_transmission.TcpSocket.Stream.{read_loop, readn, write_loop, writen}
use safe_transmission.TcpSocket.Stream.Pieces.{whole, piece}
use safe_transmission.TcpSocket.Timeout.{select_loop, read_timeout, write_timeout}
use safe_transmission.TcpSocket.Timeout.Ready.{ready}
use safe_transmission.TcpSocket.Message.{
  host_int, send_frame, send_msg, recv_body, recv_frame, recv_msg,
}
use safe_transmission.TcpSocket.Connect.{
  Dial, block_io, no_block_io, connect_timeout, connect_to_host,
}
use safe_transmission.KeyAgreement.{sec_key_agree}
use safe_transmission.KeyAgreement.Digest.{
  char_at, rand_char, rand_string, get_rand_string, hex_digit, hex_string, string, authentication,
  session_key,
}
use safe_transmission.KeyAgreement.Client.{send_request}
use safe_transmission.KeyAgreement.Receiving.{key_node}
use safe_transmission.KeyAgreement.Session.{
  received, out_data, working, key_agree_sends, key_agree_receives,
}
use safe_transmission.KeyAgreement.Session.Keys.{keys_agree_over_sockets}
use safe_transmission.Runs.Elements.{always, granted}
use safe_transmission.Runs.Storage.{table}
use safe_transmission.Runs.Agreements.{
  mac, digest, length-digest_16, length-digest_20, server, client, buffers, buffers-HasBuffers,
}

abbrev dial : Dial
dial = record {
  errno = 0;
  nonblock = false;
  fcntls = done tt ∷ done tt ∷ done tt ∷ done tt ∷ [];
  selects = [];
  socket = done 3;
  connect = done tt;
  sockopt = done 0;
}

abbrev writing : ℕ → Sys
writing n = record { errno = 0; selects = done 1 ∷ []; reads = []; writes = done n ∷ [] }

-- The client's message, its encoding, and the answer that the server gives to it.
abbrev request_msg : RequestMsg
request_msg = record {
  cmd_type = 1;
  client_id = 53 ∷ 0 ∷ 0 ∷ 0 ∷ 0 ∷ 0 ∷ 0 ∷ 0 ∷ 0 ∷ 0 ∷ 0 ∷ 0 ∷ [];
  auth_code =
      50 ∷ 51 ∷ 51 ∷ 53 ∷ 52 ∷ 48 ∷ 51 ∷ 50 ∷ 50 ∷ 51 ∷ 51 ∷ 49 ∷ 52 ∷ 52 ∷ 51 ∷ 53 ∷ 52 ∷ 56 ∷ 51
      ∷ 57 ∷ 52 ∷ 99 ∷ 51 ∷ 51 ∷ 53 ∷ 48 ∷ 51 ∷ 55 ∷ 53 ∷ 52 ∷ 51 ∷ 49 ∷ 0 ∷ 0 ∷ 0 ∷ 0 ∷ 0 ∷ 0 ∷ 0
      ∷ 0 ∷ 0 ∷ 0 ∷ 0 ∷ 0 ∷ 0 ∷ 0 ∷ 0 ∷ 0 ∷ 0 ∷ 0 ∷ 0 ∷ 0 ∷ 0 ∷ 0 ∷ 0 ∷ 0 ∷ 0 ∷ 0 ∷ 0 ∷ 0 ∷ 0 ∷ 0
      ∷ 0 ∷ 0 ∷ 0 ∷ [];
  server_id = 50 ∷ 0 ∷ 0 ∷ 0 ∷ 0 ∷ 0 ∷ 0 ∷ 0 ∷ 0 ∷ 0 ∷ 0 ∷ 0 ∷ [];
  r1 =
      49 ∷ 68 ∷ 53 ∷ 72 ∷ 57 ∷ 76 ∷ 51 ∷ 80 ∷ 55 ∷ 84 ∷ 49 ∷ 88 ∷ 53 ∷ 66 ∷ 57 ∷ 70 ∷ 51 ∷ 74 ∷ 55
      ∷ 78 ∷ 49 ∷ 82 ∷ 53 ∷ 86 ∷ 57 ∷ 90 ∷ 51 ∷ 68 ∷ 55 ∷ 72 ∷ 49 ∷ 76 ∷ 53 ∷ 80 ∷ 57 ∷ 84 ∷ 51 ∷ 88
      ∷ 55 ∷ 66 ∷ 49 ∷ 70 ∷ 53 ∷ 74 ∷ 57 ∷ 78 ∷ 51 ∷ 82 ∷ 55 ∷ 86 ∷ 49 ∷ 90 ∷ 53 ∷ 68 ∷ 57 ∷ 72 ∷ 51
      ∷ 76 ∷ 55 ∷ 80 ∷ 49 ∷ 84 ∷ 53 ∷ 0 ∷ [];
}

abbrev request_bytes : List ℕ
request_bytes =
    48 ∷ 112 ∷ 2 ∷ 1 ∷ 1 ∷ 19 ∷ 2 ∷ 53 ∷ 0 ∷ 19 ∷ 33 ∷ 50 ∷ 51 ∷ 51 ∷ 53 ∷ 52 ∷ 48 ∷ 51 ∷ 50 ∷ 50
    ∷ 51 ∷ 51 ∷ 49 ∷ 52 ∷ 52 ∷ 51 ∷ 53 ∷ 52 ∷ 56 ∷ 51 ∷ 57 ∷ 52 ∷ 99 ∷ 51 ∷ 51 ∷ 53 ∷ 48 ∷ 51 ∷ 55
    ∷ 53 ∷ 52 ∷ 51 ∷ 49 ∷ 0 ∷ 19 ∷ 2 ∷ 50 ∷ 0 ∷ 19 ∷ 64 ∷ 49 ∷ 68 ∷ 53 ∷ 72 ∷ 57 ∷ 76 ∷ 51 ∷ 80 ∷ 55
    ∷ 84 ∷ 49 ∷ 88 ∷ 53 ∷ 66 ∷ 57 ∷ 70 ∷ 51 ∷ 74 ∷ 55 ∷ 78 ∷ 49 ∷ 82 ∷ 53 ∷ 86 ∷ 57 ∷ 90 ∷ 51 ∷ 68
    ∷ 55 ∷ 72 ∷ 49 ∷ 76 ∷ 53 ∷ 80 ∷ 57 ∷ 84 ∷ 51 ∷ 88 ∷ 55 ∷ 66 ∷ 49 ∷ 70 ∷ 53 ∷ 74 ∷ 57 ∷ 78 ∷ 51
    ∷ 82 ∷ 55 ∷ 86 ∷ 49 ∷ 90 ∷ 53 ∷ 68 ∷ 57 ∷ 72 ∷ 51 ∷ 76 ∷ 55 ∷ 80 ∷ 49 ∷ 84 ∷ 53 ∷ 0 ∷ []

abbrev hearing : List ℕ → List ℕ → ℕ → Sys
hearing header body n = record {
  errno = 0;
  selects = done 1 ∷ done 1 ∷ [];
  reads = done header ∷ done body ∷ [];
  writes = done n ∷ [];
}

abbrev server_key : List ℕ
server_key =
    51 ∷ 49 ∷ 52 ∷ 52 ∷ 51 ∷ 53 ∷ 52 ∷ 56 ∷ 51 ∷ 57 ∷ 52 ∷ 99 ∷ 51 ∷ 51 ∷ 53 ∷ 48 ∷ 51 ∷ 55 ∷ 53
    ∷ 52 ∷ 51 ∷ 49 ∷ 53 ∷ 56 ∷ 51 ∷ 53 ∷ 52 ∷ 50 ∷ 51 ∷ 57 ∷ 52 ∷ 54 ∷ 51 ∷ 51 ∷ 52 ∷ 97 ∷ 51 ∷ 55
    ∷ 52 ∷ 101 ∷ 0 ∷ []

abbrev reply_bytes : List ℕ
reply_bytes =
    48 ∷ 80 ∷ 2 ∷ 1 ∷ 0 ∷ 19 ∷ 2 ∷ 53 ∷ 0 ∷ 19 ∷ 2 ∷ 50 ∷ 0 ∷ 19 ∷ 64 ∷ 42 ∷ 107 ∷ 43 ∷ 111 ∷ 35
    ∷ 115 ∷ 38 ∷ 119 ∷ 95 ∷ 97 ∷ 64 ∷ 101 ∷ 94 ∷ 105 ∷ 41 ∷ 109 ∷ 33 ∷ 113 ∷ 37 ∷ 117 ∷ 40 ∷ 121
    ∷ 126 ∷ 99 ∷ 36 ∷ 103 ∷ 42 ∷ 107 ∷ 43 ∷ 111 ∷ 35 ∷ 115 ∷ 38 ∷ 119 ∷ 95 ∷ 97 ∷ 64 ∷ 101 ∷ 94
    ∷ 105 ∷ 41 ∷ 109 ∷ 33 ∷ 113 ∷ 37 ∷ 117 ∷ 40 ∷ 121 ∷ 126 ∷ 99 ∷ 36 ∷ 103 ∷ 42 ∷ 107 ∷ 43 ∷ 111
    ∷ 35 ∷ 115 ∷ 38 ∷ 119 ∷ 95 ∷ 97 ∷ 64 ∷ 0 ∷ 2 ∷ 1 ∷ 100 ∷ []

abbrev request_sent : List ℕ
request_sent = 0 ∷ 0 ∷ 0 ∷ 114 ∷ request_bytes

abbrev reply_sent : List ℕ
reply_sent = 0 ∷ 0 ∷ 0 ∷ 82 ∷ reply_bytes

abbrev left_over : Sys
left_over = record { errno = 0; selects = []; reads = []; writes = [] }

abbrev at_server : Sys
at_server = hearing (0 ∷ 0 ∷ 0 ∷ 114 ∷ []) request_bytes 86

abbrev at_client : Sys
at_client = hearing (0 ∷ 0 ∷ 0 ∷ 82 ∷ []) reply_bytes 0

client_sends :
    key_agree_sends always mac
      (λ n. n)
      client
      true
      80
      buffers.request
      buffers.request_encoder
      dial
      (writing 118)
    ≡ ok (request_msg, 114, (0, request_sent, left_over))
unfolding key_agree_sends send_request Request.new_codec Request.msg_encode connect_to_host
    connect_timeout block_io no_block_io strcpy overwrite strlen char_at rand_char rand_string
    get_rand_string hex_digit hex_string string authentication send_msg send_frame writen write_loop
    write_timeout select_loop read_bytes copy_in write_head_node_int write_next_node_str link
    pack_sequence write_field total_length copy_nodes write_sequence any_buffer string_to_any_buf
    encode_char int_to_char write_integer write_tag_and_length count_length_of_size length_bytes
    length_field write_printable_string write_char_string
client_sends = refl

server_works :
    working always mac
      (digest 20)
      (λ n. n + 7)
      server
      buffers.request_decoder
      buffers.respond
      buffers.respond_encoder
      at_server
    ≡ ok (server_key, (0, reply_sent, left_over))
unfolding working received out_data recv_msg recv_frame recv_body readn read_loop read_timeout
    host_int Request.msg_decode sec_key_agree session_key strcmp_equal Respond.new_codec
    Respond.msg_encode write_next_node_int read_head_node_int read_next_node_str unpack_sequence
    read_field read_item read_items read_sequence decode_char char_to_int read_integer
    read_tag_and_length get_tag_info read_big_endian length_info get_length_info
    read_printable_string strcpy overwrite strlen char_at rand_char rand_string get_rand_string
    hex_digit hex_string string authentication send_msg send_frame writen write_loop write_timeout
    select_loop read_bytes copy_in write_head_node_int write_next_node_str link pack_sequence
    write_field total_length copy_nodes write_sequence any_buffer string_to_any_buf encode_char
    int_to_char write_integer write_tag_and_length count_length_of_size length_bytes length_field
    write_printable_string write_char_string
server_works = refl

keys_agree_over_sockets_example :
    (t' : List NodeShmInfo) × (key_agree_receives always
        (digest 20)
        client
        (some table)
        buffers.respond_decoder
        buffers.node
        request_msg.r1
        114
        at_client
      ≡ ok (server_key, some t'))
    × ((¬ All (IsTaken (key_node client buffers.node server_key 100)) table)
        → shm_read
            (some t')
            2
            (key_node client buffers.node server_key 100).client_id
            (key_node client buffers.node server_key 100).server_id
          ≡ ok (key_node client buffers.node server_key 100))
keys_agree_over_sockets_example =
    keys_agree_over_sockets always mac (digest 20) client server (λ n. n) (λ n. n + 7) buffers table
      true 80 dial (writing 118) left_over at_server left_over at_client request_msg 114
      request_sent server_key reply_sent (granted (2 ^ 33))
      (λ key text. length-digest_16 (key ++ text)) length-digest_20 buffers-HasBuffers (refl, tt)
      (refl, tt) (refl, tt) refl
      (
        record { client_end = tt; server_end = tt },
        (record { client_end = tt; server_end = tt }, tt),
      )
      refl client_sends
      (record {
        header = 0 ∷ 0 ∷ 0 ∷ 114 ∷ [];
        body = request_bytes;
        selects = done 1 ∷ [];
        mid = done request_bytes ∷ [];
        rest = [];
        ready = ready;
        split = refl;
        four = refl;
        head = piece 0 (0 ∷ 0 ∷ 114 ∷ []) _ refl whole;
        tail = piece 48 _ _ refl whole;
      })
      server_works
      (record {
        header = 0 ∷ 0 ∷ 0 ∷ 82 ∷ [];
        body = reply_bytes;
        selects = done 1 ∷ [];
        mid = done reply_bytes ∷ [];
        rest = [];
        ready = ready;
        split = refl;
        four = refl;
        head = piece 0 (0 ∷ 0 ∷ 82 ∷ []) _ refl whole;
        tail = piece 48 _ _ refl whole;
      })
