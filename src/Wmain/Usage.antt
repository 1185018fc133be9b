-- ===== src/Wmain/Usage.antt =====
-- The screen of `Usage` (ZombieFinder.cpp).
use zombie_finder.Base.Text.{Text, codes, ◌<<◌}
use zombie_finder.Outputs.{end_line}
use zombie_finder.Strings.{get_file_name_from_file_path}

-- What `Usage` prints behind the error text.
unfoldable pub usage_screen : Text → Text
unfolding get_file_name_from_file_path
usage_screen argv0 =
    let exe = get_file_name_from_file_path argv0 in
    end_line
    << codes "Usage:"
    << end_line
    << end_line
    << codes "  "
    << exe
    << codes " [-details] [-csv] [-secs exitAgeInSecs] [-out filename] [-diag directory]"
    << end_line
    << codes "  "
    << exe
    << codes " -threads [-out filename]"
    << end_line
    << end_line
    << codes "    -details"
    << end_line
    << codes "      Outputs details about all zombies and owners; default is to output a summary."
    << end_line
    << end_line
    << codes "    -csv"
    << end_line
    << codes
        "      Outputs results as tab-delimited fields; default is to output human-readable format with spacing."
    << end_line
    << end_line
    << codes "    -secs exitAgeInSecs"
    << end_line
    << codes
        "      Consider a process to be a zombie only if it exited at least exitAgeInSecs seconds ago."
    << end_line
    << codes "      Default is 3 seconds."
    << end_line
    << end_line
    << codes "    -threads"
    << end_line
    << codes
        "      List all processes and counts of active and zombied threads in each (tab-delimited)."
    << end_line
    << end_line
    << codes "    -out filename"
    << end_line
    << codes "      Write output to filename. If not specified, writes to stdout."
    << end_line
    << end_line
    << codes "    -diag directory"
    << end_line
    << codes
        "      Write diagnostic output - all collected handle and zombie information - to uniquely named files"
    << end_line
    << codes "      in the named directory."
    << end_line
    << end_line
    << end_line
