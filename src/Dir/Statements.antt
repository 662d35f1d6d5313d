-- ===== src/Dir/Statements.antt =====
-- The statements of the directory commands, in server/func_dir.c, server/func_ls.c and server/path.c.
use cloud_sys.Base.Int.{ℤ}
use cloud_sys.Base.{ℕ, ◌++◌}
use cloud_sys.CString.{Bytes, text, dec_int}
use cloud_sys.Cd.{snprintf}

-- CHAR_MAX of limits.h, which is the size of some of the buffers for SQL.
abbrev pub char_max : ℕ
char_max = 127

unfoldable pub sql_pwd : ℤ → Bytes
unfolding text
sql_pwd id =
    snprintf char_max (text "select path from file_info where id = " ++ (dec_int id ++ text ";"))

unfoldable pub parent_path_text : ℤ → Bytes
unfolding text
parent_path_text id = text "select path from file_info where id=" ++ (dec_int id ++ text ";")

unfoldable pub sql_parent_path : ℤ → Bytes
unfolding parent_path_text
sql_parent_path id = snprintf char_max (parent_path_text id)

unfoldable pub dir_taken_text : Bytes → ℤ → Bytes → Bytes
unfolding text
dir_taken_text dirname id username =
    text "select id from file_info where filename='"
    ++ (dirname
        ++ (text "' and parent_id="
            ++ (dec_int id ++ (text " and username='" ++ (username ++ text "' and type=2")))))

unfoldable pub sql_dir_taken : Bytes → ℤ → Bytes → Bytes
unfolding dir_taken_text
sql_dir_taken dirname id username = snprintf char_max (dir_taken_text dirname id username)

-- The text of the INSERT, before `snprintf` cuts it to the buffer.
unfoldable pub insert_dir_text : Bytes → Bytes → ℤ → Bytes → Bytes
unfolding text
insert_dir_text dirname username id path =
    text "insert into file_info(filename,username,parent_id,path,type) values('"
    ++ (dirname
        ++ (text "','"
            ++ (username ++ (text "'," ++ (dec_int id ++ (text ",'" ++ (path ++ text "',2)")))))))

unfoldable pub sql_insert_dir : Bytes → Bytes → ℤ → Bytes → Bytes
unfolding insert_dir_text
sql_insert_dir dirname username id path =
    snprintf char_max (insert_dir_text dirname username id path)

unfoldable pub find_dir_text : Bytes → ℤ → Bytes
unfolding text
find_dir_text dirname id =
    text "select id from file_info where filename='"
    ++ (dirname ++ (text "' and parent_id=" ++ (dec_int id ++ text " and type=2;")))

unfoldable pub sql_find_dir : Bytes → ℤ → Bytes
unfolding find_dir_text
sql_find_dir dirname id = snprintf 1024 (find_dir_text dirname id)

unfoldable pub children_text : ℤ → Bytes
unfolding text
children_text id = text "select id from file_info where parent_id=" ++ (dec_int id ++ text ";")

unfoldable pub sql_children : ℤ → Bytes
unfolding children_text
sql_children id = snprintf 1024 (children_text id)

unfoldable pub delete_dir_text : ℤ → Bytes
unfolding text
delete_dir_text id = text "delete from file_info where id=" ++ (dec_int id ++ text ";")

unfoldable pub sql_delete_dir : ℤ → Bytes
unfolding delete_dir_text
sql_delete_dir id = snprintf 1024 (delete_dir_text id)

unfoldable pub ls_text : ℤ → Bytes → Bytes
unfolding text
ls_text id username =
    text "SELECT * FROM file_info WHERE parent_id = "
    ++ (dec_int id ++ (text " AND (username = '" ++ (username ++ text "' OR username = '0');")))

unfoldable pub sql_ls : ℤ → Bytes → Bytes
unfolding ls_text
sql_ls id username = snprintf 256 (ls_text id username)

unfoldable pub sql_path : ℤ → Bytes
unfolding text
sql_path id = snprintf 256 (text "SELECT path FROM file_info WHERE id = " ++ dec_int id)
