-- ===== src/SvnError/Codes/Common.antt =====
-- The errors of validation, XML, I/O, streams, nodes and entries of svn_error_codes.h.
use macstrop.Shared.{List, [], ◌∷◌}
use macstrop.SvnError.Defs.{ErrDef, errdef, category_plus, bad, xml, io, stream, node, entry}

unfoldable pub bad_errors : List ErrDef
bad_errors =
    errdef "SVN_ERR_BAD_CONTAINING_POOL" (category_plus bad 0)
      "Bad parent pool passed to svn_make_pool()"
    ∷ errdef "SVN_ERR_BAD_FILENAME" (category_plus bad 1) "Bogus filename"
    ∷ errdef "SVN_ERR_BAD_URL" (category_plus bad 2) "Bogus URL"
    ∷ errdef "SVN_ERR_BAD_DATE" (category_plus bad 3) "Bogus date"
    ∷ errdef "SVN_ERR_BAD_MIME_TYPE" (category_plus bad 4) "Bogus mime-type"
    ∷ errdef "SVN_ERR_BAD_PROPERTY_VALUE" (category_plus bad 5) "Wrong or unexpected property value"
    ∷ errdef "SVN_ERR_BAD_VERSION_FILE_FORMAT" (category_plus bad 6)
        "Version file format not correct"
    ∷ errdef "SVN_ERR_BAD_RELATIVE_PATH" (category_plus bad 7)
        "Path is not an immediate child of the specified directory"
    ∷ errdef "SVN_ERR_BAD_UUID" (category_plus bad 8) "Bogus UUID"
    ∷ errdef "SVN_ERR_BAD_CONFIG_VALUE" (category_plus bad 9) "Invalid configuration value"
    ∷ errdef "SVN_ERR_BAD_SERVER_SPECIFICATION" (category_plus bad 10) "Bogus server specification"
    ∷ errdef "SVN_ERR_BAD_CHECKSUM_KIND" (category_plus bad 11) "Unsupported checksum type"
    ∷ errdef "SVN_ERR_BAD_CHECKSUM_PARSE" (category_plus bad 12) "Invalid character in hex checksum"
    ∷ errdef "SVN_ERR_BAD_TOKEN" (category_plus bad 13) "Unknown string value of token"
    ∷ errdef "SVN_ERR_BAD_CHANGELIST_NAME" (category_plus bad 14) "Invalid changelist name"
    ∷ errdef "SVN_ERR_BAD_ATOMIC" (category_plus bad 15) "Invalid atomic"
    ∷ []

unfoldable pub xml_errors : List ErrDef
xml_errors =
    errdef "SVN_ERR_XML_ATTRIB_NOT_FOUND" (category_plus xml 0) "No such XML tag attribute"
    ∷ errdef "SVN_ERR_XML_MISSING_ANCESTRY" (category_plus xml 1) "<delta-pkg> is missing ancestry"
    ∷ errdef "SVN_ERR_XML_UNKNOWN_ENCODING" (category_plus xml 2)
        "Unrecognized binary data encoding; can't decode"
    ∷ errdef "SVN_ERR_XML_MALFORMED" (category_plus xml 3) "XML data was not well-formed"
    ∷ errdef "SVN_ERR_XML_UNESCAPABLE_DATA" (category_plus xml 4)
        "Data cannot be safely XML-escaped"
    ∷ []

unfoldable pub io_errors : List ErrDef
io_errors =
    errdef "SVN_ERR_IO_INCONSISTENT_EOL" (category_plus io 0) "Inconsistent line ending style"
    ∷ errdef "SVN_ERR_IO_UNKNOWN_EOL" (category_plus io 1) "Unrecognized line ending style"
    ∷ errdef "SVN_ERR_IO_CORRUPT_EOL" (category_plus io 2) "Line endings other than expected"
    ∷ errdef "SVN_ERR_IO_UNIQUE_NAMES_EXHAUSTED" (category_plus io 3) "Ran out of unique names"
    ∷ errdef "SVN_ERR_IO_PIPE_FRAME_ERROR" (category_plus io 4) "Framing error in pipe protocol"
    ∷ errdef "SVN_ERR_IO_PIPE_READ_ERROR" (category_plus io 5) "Read error in pipe"
    ∷ errdef "SVN_ERR_IO_WRITE_ERROR" (category_plus io 6) "Write error"
    ∷ errdef "SVN_ERR_IO_PIPE_WRITE_ERROR" (category_plus io 7) "Write error in pipe"
    ∷ []

unfoldable pub stream_errors : List ErrDef
stream_errors =
    errdef "SVN_ERR_STREAM_UNEXPECTED_EOF" (category_plus stream 0) "Unexpected EOF on stream"
    ∷ errdef "SVN_ERR_STREAM_MALFORMED_DATA" (category_plus stream 1) "Malformed stream data"
    ∷ errdef "SVN_ERR_STREAM_UNRECOGNIZED_DATA" (category_plus stream 2) "Unrecognized stream data"
    ∷ errdef "SVN_ERR_STREAM_SEEK_NOT_SUPPORTED" (category_plus stream 3)
        "Stream doesn't support seeking"
    ∷ []

unfoldable pub node_errors : List ErrDef
node_errors =
    errdef "SVN_ERR_NODE_UNKNOWN_KIND" (category_plus node 0) "Unknown svn_node_kind"
    ∷ errdef "SVN_ERR_NODE_UNEXPECTED_KIND" (category_plus node 1) "Unexpected node kind found"
    ∷ []

unfoldable pub entry_errors : List ErrDef
entry_errors =
    errdef "SVN_ERR_ENTRY_NOT_FOUND" (category_plus entry 0) "Can't find an entry"
    ∷ errdef "SVN_ERR_ENTRY_EXISTS" (category_plus entry 2) "Entry already exists"
    ∷ errdef "SVN_ERR_ENTRY_MISSING_REVISION" (category_plus entry 3) "Entry has no revision"
    ∷ errdef "SVN_ERR_ENTRY_MISSING_URL" (category_plus entry 4) "Entry has no URL"
    ∷ errdef "SVN_ERR_ENTRY_ATTRIBUTE_INVALID" (category_plus entry 5)
        "Entry has an invalid attribute"
    ∷ errdef "SVN_ERR_ENTRY_FORBIDDEN" (category_plus entry 6)
        "Can't create an entry for a forbidden name"
    ∷ []
